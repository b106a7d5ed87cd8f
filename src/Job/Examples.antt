-- ===== src/Job/Examples.antt =====
-- Runs of the job manager on small inputs.
use mahiron.Base.{
  ◌-◌, ℕ, ◌≤◌, ◌<◌, ◌≡◌, refl, true, false, [], ◌∷◌, length, ◌==◌, if◌then◌else◌, none, some, inl,
  arith,
}
use mahiron.Base.Members.{mem, take_out, IsUnique}
use mahiron.Job.{
  HandlerError, JobStatus, JobDefinition, JobManager, is_finished, is_standby, new_manager,
  dispatch, dispatch_round, dispatch_from, dependencies_satisfied, trim_history, trim_from,
  trim_round, drop_finished, add_history, enqueue_item, publish_change, put, mark, mark_all,
  pop_runnable, may_run, start_job,
}
use mahiron.Job.Pending.{
  shutdown, abort_queued_and_standby, abort_all, abort_pending, abort_standby_from,
  abort_if_standby, finish, finished_job, cancel_active, complete_run, complete_active,
  should_retry, standby,
}
use mahiron.Job.Calls.{JobError, enqueue_locked, refusal, enrol, get_active_job_keys_by_prefix}
use mahiron.Job.Locked.{IsSound}
use mahiron.Job.Starts.{enrol-IsSound}
use mahiron.Job.Sound.{Sound}
use mahiron.Job.Steps.{Step, Reachable, Reachable-IsSound}
use mahiron.Job.Dispatch.{dispatch-idle, dispatch_round-safe}
use mahiron.Job.History.{
  without_oldest, trim_history-bound, Shown, get_active_job_keys_by_prefix_lem,
}
use mahiron.Job.Shutdown.{shutdown-clears}
use mahiron.Job.Safety.{Reachable-running, Reachable-exclusive, Reachable-done, Reachable-refuses}

-- Two definitions that exclude each other; the first may be retried once.
abbrev scan : JobDefinition
scan = record {
  key = 7;
  name = 1;
  has_handler = true;
  depends_on = [];
  exclusive_keys = 50 ∷ [];
  is_rerunnable = true;
  retry_delays = 10 ∷ [];
  retry_if = none;
}

abbrev gather : JobDefinition
gather = record {
  key = 8;
  name = 2;
  has_handler = true;
  depends_on = [];
  exclusive_keys = 50 ∷ [];
  is_rerunnable = true;
  retry_delays = [];
  retry_if = none;
}

abbrev fresh_manager : JobManager
fresh_manager = new_manager 10 2 true

abbrev one_job : JobManager
one_job = (enqueue_locked 1 100 scan fresh_manager).0

-- The first job runs, the second waits for its exclusive key.
abbrev two_jobs : JobManager
two_jobs = (enqueue_locked 2 101 gather one_job).0

two_jobs_queue : two_jobs.queue ≡ 101 ∷ []
unfolding enqueue_locked refusal enrol dispatch dispatch_from dispatch_round pop_runnable may_run
    dependencies_satisfied add_history trim_history trim_from trim_round drop_finished enqueue_item
    publish_change start_job put mark mark_all new_manager mem take_out
two_jobs_queue = refl

two_jobs-Reachable : Reachable 10 2 true two_jobs
unfolding enqueue_locked refusal enrol dispatch dispatch_from dispatch_round pop_runnable may_run
    dependencies_satisfied add_history trim_history trim_from trim_round drop_finished enqueue_item
    publish_change start_job put mark mark_all new_manager mem take_out
two_jobs-Reachable =
    Reachable.then_ (Reachable.then_ Reachable.start (Step.defined 1 100 scan fresh_manager refl))
      (Step.defined 2 101 gather one_job refl)

Reachable-running_example :
    (two_jobs.running ≡ length two_jobs.active)
    × (two_jobs.running ≤ two_jobs.max_concurrent)
    × IsUnique two_jobs.active
    × ((k : ℕ)
        → mem k two_jobs.active ≡ true
        → ((two_jobs.jobs k).status ≡ JobStatus.running) × (mem k two_jobs.history ≡ true))
Reachable-running_example = Reachable-running 10 2 true two_jobs two_jobs-Reachable

Reachable-exclusive_example :
    ((j k x : ℕ)
      → mem j two_jobs.active ≡ true
      → mem k two_jobs.active ≡ true
      → mem x (two_jobs.jobs j).definition.exclusive_keys ≡ true
      → mem x (two_jobs.jobs k).definition.exclusive_keys ≡ true
      → j ≡ k)
    × ((j k : ℕ)
        → mem j two_jobs.history ≡ true
        → mem k two_jobs.history ≡ true
        → is_finished (two_jobs.jobs j).status ≡ false
        → is_finished (two_jobs.jobs k).status ≡ false
        → (two_jobs.jobs j).key ≡ (two_jobs.jobs k).key
        → j ≡ k)
Reachable-exclusive_example = Reachable-exclusive 10 2 true two_jobs two_jobs-Reachable

Reachable-done_example :
    ((two_jobs.jobs 100).closes ≡ (if is_finished (two_jobs.jobs 100).status then 1 else 0))
    × ((two_jobs.jobs 100).retry_count ≤ length (two_jobs.jobs 100).definition.retry_delays)
unfolding enqueue_locked refusal enrol dispatch dispatch_from dispatch_round pop_runnable may_run
    dependencies_satisfied add_history trim_history trim_from trim_round drop_finished enqueue_item
    publish_change start_job put mark mark_all new_manager mem take_out
Reachable-done_example = Reachable-done 10 2 true two_jobs two_jobs-Reachable 100 refl

Reachable-refuses_example :
    enqueue_locked 3 102 gather two_jobs ≡ (two_jobs, inl JobError.job_already_running)
unfolding enqueue_locked refusal enrol dispatch dispatch_from dispatch_round pop_runnable may_run
    dependencies_satisfied add_history trim_history trim_from trim_round drop_finished enqueue_item
    publish_change start_job put mark mark_all new_manager mem take_out
Reachable-refuses_example =
    Reachable-refuses 10 2 true two_jobs two_jobs-Reachable 3 102 101 gather refl refl refl refl
      refl refl

dispatch-idle_example :
    dependencies_satisfied (dispatch 3 two_jobs) ((dispatch 3 two_jobs).jobs 101).definition ≡ false
unfolding enqueue_locked refusal enrol dispatch dispatch_from dispatch_round pop_runnable may_run
    dependencies_satisfied add_history trim_history trim_from trim_round drop_finished enqueue_item
    publish_change start_job put mark mark_all new_manager mem take_out
dispatch-idle_example = dispatch-idle 3 101 two_jobs (omega arith) refl refl

-- A job that was admitted and is not started yet.
abbrev waiting : JobManager
waiting = enrol 1 100 scan fresh_manager

fresh-Reachable : Reachable 10 2 true fresh_manager
fresh-Reachable = Reachable.start

waiting-IsSound : IsSound waiting
unfolding enqueue_locked refusal enrol dispatch dispatch_from dispatch_round pop_runnable may_run
    dependencies_satisfied add_history trim_history trim_from trim_round drop_finished enqueue_item
    publish_change start_job put mark mark_all new_manager mem take_out
waiting-IsSound =
    enrol-IsSound 1 100 scan fresh_manager (Reachable-IsSound fresh-Reachable) refl refl

abbrev started : JobManager
started = start_job 1 100 (record waiting { queue = take_out 100 waiting.queue })

dispatch_round-safe_example :
    (id : ℕ) × (mem id waiting.queue ≡ true)
    × (started.active ≡ id ∷ waiting.active)
    × ((k : ℕ)
        → mem k waiting.history ≡ true
        → is_finished (waiting.jobs k).status ≡ false
        → mem (waiting.jobs k).key (waiting.jobs id).definition.depends_on ≡ false)
    × ((k x : ℕ)
        → mem k waiting.active ≡ true
        → mem x (waiting.jobs k).definition.exclusive_keys ≡ true
        → mem x (waiting.jobs id).definition.exclusive_keys ≡ false)
unfolding enqueue_locked refusal enrol dispatch dispatch_from dispatch_round pop_runnable may_run
    dependencies_satisfied add_history trim_history trim_from trim_round drop_finished enqueue_item
    publish_change start_job put mark mark_all new_manager mem take_out
dispatch_round-safe_example = dispatch_round-safe 1 waiting started waiting-IsSound refl

trim_history-bound_example :
    ((trim_history two_jobs).history
      ≡ without_oldest two_jobs.jobs
          (length two_jobs.history - two_jobs.max_history)
          two_jobs.history)
    × ((k : ℕ)
        → (mem k (trim_history two_jobs).history ≡ true → mem k two_jobs.history ≡ true)
          × (mem k two_jobs.history ≡ true
              → is_finished (two_jobs.jobs k).status ≡ false
              → mem k (trim_history two_jobs).history ≡ true)
          × (two_jobs.max_history < length (trim_history two_jobs).history
              → mem k (trim_history two_jobs).history ≡ true
              → is_finished (two_jobs.jobs k).status ≡ false))
trim_history-bound_example = trim_history-bound two_jobs

get_active_job_keys_by_prefix_lem_example :
    ((key : ℕ)
      → mem key (get_active_job_keys_by_prefix (λ k. k == 8) two_jobs) ≡ true
      → Shown (λ k. k == 8) two_jobs.jobs two_jobs.history key)
    × ((id : ℕ)
        → mem id two_jobs.history ≡ true
        → is_finished (two_jobs.jobs id).status ≡ false
        → ((two_jobs.jobs id).key == 8) ≡ true
        → mem (two_jobs.jobs id).key (get_active_job_keys_by_prefix (λ k. k == 8) two_jobs) ≡ true)
    × IsUnique (get_active_job_keys_by_prefix (λ k. k == 8) two_jobs)
get_active_job_keys_by_prefix_lem_example = get_active_job_keys_by_prefix_lem (λ k. k == 8) two_jobs

shutdown-clears_example :
    ((shutdown 5 two_jobs).queue ≡ [])
    × ((k : ℕ)
        → mem k two_jobs.queue ≡ true
        → is_finished ((shutdown 5 two_jobs).jobs k).status ≡ true)
    × ((k : ℕ)
        → is_standby (two_jobs.jobs k).status ≡ true
        → is_finished ((shutdown 5 two_jobs).jobs k).status ≡ true)
    × ((shutdown 5 two_jobs).active ≡ two_jobs.active)
    × ((k : ℕ) → mem k two_jobs.active ≡ true → mem k (shutdown 5 two_jobs).cancelled ≡ true)
unfolding enqueue_locked refusal enrol dispatch dispatch_from dispatch_round pop_runnable may_run
    dependencies_satisfied add_history trim_history trim_from trim_round drop_finished enqueue_item
    publish_change start_job put mark mark_all new_manager mem take_out
shutdown-clears_example =
    shutdown-clears 5 two_jobs (omega arith)
      (Sound.standby_known (Reachable-IsSound two_jobs-Reachable).0)

-- Three jobs that fail and wait for a retry, in a history with a bound of one entry.
abbrev retried : ℕ → JobDefinition
retried key = record {
  key = key;
  name = 0;
  has_handler = true;
  depends_on = [];
  exclusive_keys = [];
  is_rerunnable = false;
  retry_delays = 10 ∷ [];
  retry_if = none;
}

abbrev crowded : JobManager
crowded =
    let a = (enqueue_locked 1 100 (retried 7) (new_manager 1 3 false)).0 in
    let b = (enqueue_locked 1 101 (retried 8) a).0 in
    let c = (enqueue_locked 1 102 (retried 9) b).0 in
    let broken : HandlerError = record { canceled = false; text = 5 } in
    complete_run 2 102 (some broken)
      (complete_run 2 101 (some broken) (complete_run 2 100 (some broken) c))

-- The loop over the history misses an entry that a removal moves down.
shutdown-crowded :
    (((shutdown 3 crowded).jobs 100).status ≡ JobStatus.finished)
    × (((shutdown 3 crowded).jobs 101).status ≡ JobStatus.standby)
    × (((shutdown 3 crowded).jobs 102).status ≡ JobStatus.finished)
unfolding enqueue_locked refusal enrol dispatch dispatch_from dispatch_round pop_runnable may_run
    dependencies_satisfied add_history trim_history trim_from trim_round drop_finished enqueue_item
    publish_change start_job put mark mark_all new_manager mem take_out shutdown
    abort_queued_and_standby abort_all abort_pending abort_standby_from abort_if_standby finish
    finished_job cancel_active complete_run complete_active should_retry standby
shutdown-crowded = (refl, refl, refl)
