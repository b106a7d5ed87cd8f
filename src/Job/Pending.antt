-- ===== src/Job/Pending.antt =====
-- internal/job/manager.go: how a run ends, by a retry or for good, and how a waiting job is given up.
use mahiron.Base.{
  ℕ, zero, suc, ◌+◌, ◌-◌, Bool, true, false, not, ◌&&◌, ◌||◌, List, [], ◌∷◌, ◌++◌, length, get_or,
  leb, if◌then◌else◌, Option, none, some,
}
use mahiron.Base.Members.{take_out}
use mahiron.Job.{
  JobStatus, is_finished, is_standby, HandlerError, Job, EventType, JobManager, put, mark, mark_all,
  publish_change, trim_history, enqueue_item, dispatch,
}

abbrev pub context_canceled : HandlerError
context_canceled = record { canceled = true; text = 0 }

abbrev error_text : Option HandlerError → ℕ
error_text none = 0
error_text (some e) = e.text

unfoldable pub complete_active : ℕ → JobManager → JobManager
complete_active id m = record m {
  active = take_out id m.active;
  active_exclusive_keys =
      mark_all (m.jobs id).definition.exclusive_keys false m.active_exclusive_keys;
  running = m.running - 1;
}

abbrev pub accepts : Option (HandlerError → Bool) → HandlerError → Bool
accepts none e = true
accepts (some retry_if) e = retry_if e

unfoldable pub should_retry : JobManager → Job → Option HandlerError → Bool
should_retry m job none = false
should_retry m job (some e) =
    if e.canceled || (leb (length job.definition.retry_delays) job.retry_count || m.is_shutdown)
    then false
    else accepts job.definition.retry_if e

-- `should_retry` is asked before: there is an error, and a delay for this retry.
unfoldable pub standby : ℕ → ℕ → Option HandlerError → JobManager → JobManager
standby now id failure m =
    let job = m.jobs id in
    let next : ℕ = now + get_or job.definition.retry_delays job.retry_count 0 in
    publish_change EventType.update id (record m {
      jobs =
          put id
            (record job {
              retry_count = suc job.retry_count;
              status = JobStatus.standby;
              updated_at = now;
              next_run_at = some next;
              error = error_text failure;
            })
            m.jobs;
    })

-- The text of the error that makes the job a failed one.
unfoldable pub failure_of : Option HandlerError → Bool → Option ℕ
failure_of none has_aborted = none
failure_of (some e) has_aborted = if has_aborted || e.canceled then none else some e.text

unfoldable pub finished_job : ℕ → Option HandlerError → Bool → Job → Job
finished_job now failure aborted job =
    let has_aborted = job.has_aborted || aborted in
    let failed = failure_of failure has_aborted in
    record job {
      status = JobStatus.finished;
      updated_at = now;
      finished_at = some now;
      next_run_at = none;
      has_aborted = has_aborted;
      has_failed = elim failed [ none ↦ job.has_failed | some text ↦ true ];
      error = elim failed [ none ↦ job.error | some text ↦ text ];
      closes = suc job.closes;
    }

-- `finishLocked`; what it records for the metrics is left out.
unfoldable pub finish : ℕ → ℕ → Option HandlerError → Bool → JobManager → JobManager
finish now id failure aborted m =
    let job = m.jobs id in
    if is_finished job.status
    then m
    else trim_history (
        publish_change EventType.update id (record m {
          jobs = put id (finished_job now failure aborted job) m.jobs;
          active_keys = mark job.key false m.active_keys;
        }))

-- `run` behind the handler, which returned the error.
unfoldable pub complete_run : ℕ → ℕ → Option HandlerError → JobManager → JobManager
complete_run now id failure m =
    let m' = complete_active id m in
    let job = m'.jobs id in
    dispatch now (
      if not job.has_aborted && should_retry m' job failure
      then standby now id failure m'
      else finish now id failure job.has_aborted m')

unfoldable pub retry_to_queue : ℕ → ℕ → JobManager → JobManager
retry_to_queue now id m =
    let job = m.jobs id in
    publish_change EventType.update id (
      enqueue_item id (record m {
        jobs =
            put id (record job { status = JobStatus.queued; updated_at = now; next_run_at = none })
              m.jobs;
      }))

-- The end of the timer that `standbyLocked` starts.
unfoldable pub timer_fired : ℕ → ℕ → JobManager → JobManager
timer_fired now id m =
    let job = m.jobs id in
    if not (is_standby job.status) || (job.has_aborted || m.is_shutdown)
    then m
    else dispatch now (retry_to_queue now id m)

unfoldable pub abort_pending : ℕ → ℕ → JobManager → JobManager
abort_pending now id m =
    finish now id (some context_canceled) true
      (record m { jobs = put id (record (m.jobs id) { is_aborting = true }) m.jobs })

unfoldable pub abort_all : ℕ → List ℕ → JobManager → JobManager
abort_all now [] m = m
abort_all now (id ∷ rest) m = abort_all now rest (abort_pending now id m)

unfoldable pub abort_if_standby : ℕ → ℕ → JobManager → JobManager
abort_if_standby now id m = if is_standby (m.jobs id).status then abort_pending now id m else m

-- `for _, item := range m.history`: as many slots of the array as the history had entries at the start.
unfoldable pub abort_standby_from : ℕ → ℕ → ℕ → JobManager → JobManager
abort_standby_from zero now position m = m
abort_standby_from (suc left) now position m =
    abort_standby_from left now (suc position)
      (abort_if_standby now (get_or (m.history ++ m.spare) position 0) m)

unfoldable pub abort_queued_and_standby : ℕ → JobManager → JobManager
abort_queued_and_standby now m =
    let m' = abort_all now m.queue (record m { queue = [] }) in
    abort_standby_from (length m'.history) now 0 m'

unfoldable pub cancel_active : JobManager → JobManager
cancel_active m = record m { cancelled = m.active ++ m.cancelled }

-- `Shutdown` up to the release of the lock.
unfoldable pub shutdown : ℕ → JobManager → JobManager
shutdown now m = cancel_active (abort_queued_and_standby now (record m { is_shutdown = true }))
