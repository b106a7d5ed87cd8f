-- ===== src/Job/Calls.antt =====
-- internal/job/manager.go: the methods that others call: enqueue, abort, rerun, wait, and the listings.
use mahiron.Base.{
  ℕ, Bool, true, not, ◌||◌, List, [], ◌∷◌, ◌==◌, if◌then◌else◌, Option, none, some, ◌⊎◌, inl, inr,
}
use mahiron.Base.Assoc.{lookup}
use mahiron.Base.Members.{mem, take_out}
use mahiron.Job.{
  is_finished, is_standby, JobDefinition, Job, new_job, EventType, JobManager, put, mark,
  publish_change, add_history, enqueue_item, dispatch,
}
use mahiron.Job.Pending.{abort_pending}

pub data JobError : Type 0 where
  definition_not_found invalid_definition manager_shutdown job_not_found : JobError
  job_not_running job_not_rerunnable job_already_running : JobError

-- The part of `enqueueLocked` that admits the job, `id` its new ID.
unfoldable pub enrol : ℕ → ℕ → JobDefinition → JobManager → JobManager
enrol now id def m =
    let m' =
      enqueue_item id (add_history id (record m { jobs = put id (new_job now def) m.jobs })) in
    publish_change EventType.create id
      (record m' { active_keys = mark def.key true m'.active_keys })

-- Why `enqueueLocked` refuses a definition.
unfoldable pub refusal : JobDefinition → JobManager → Option JobError
refusal def m =
    if m.is_shutdown
    then some JobError.manager_shutdown
    else if (def.key == 0) || not def.has_handler
    then some JobError.invalid_definition
    else if m.active_keys def.key
    then some JobError.job_already_running
    else none

unfoldable pub enqueue_locked : ℕ → ℕ → JobDefinition → JobManager → JobManager × (JobError ⊎ ℕ)
enqueue_locked now id def m = elim (refusal def m) [
  | some e ↦ (m, inl e)
  | none ↦ (dispatch now (enrol now id def m), inr id)
]

unfoldable pub enqueue : ℕ → ℕ → ℕ → JobManager → JobManager × (JobError ⊎ ℕ)
enqueue now id key m = elim (lookup key m.definitions) [
  | none ↦ (m, inl JobError.definition_not_found)
  | some def ↦ enqueue_locked now id def m
]

unfoldable pub find_job : ℕ → JobManager → Option Job
find_job id m = if mem id m.history then some (m.jobs id) else none

abbrev pub request_abort : ℕ → Job → Job
request_abort now job = record job { is_aborting = true; has_aborted = true; updated_at = now }

-- The three ways to abort a job; `none` where the code returns false.
unfoldable pub abort_active : ℕ → ℕ → JobManager → Option JobManager
abort_active now id m =
    let cancelled : JobManager = record m { cancelled = id ∷ m.cancelled } in
    if mem id m.active
    then some (
        if mem id m.history
        then publish_change EventType.update id
            (record cancelled { jobs = put id (request_abort now (m.jobs id)) m.jobs })
        else cancelled)
    else none

unfoldable pub abort_queued : ℕ → ℕ → JobManager → Option JobManager
abort_queued now id m =
    if mem id m.queue
    then some (abort_pending now id (record m { queue = take_out id m.queue }))
    else none

unfoldable pub abort_standby : ℕ → ℕ → JobManager → Option JobManager
abort_standby now id m = elim (find_job id m) [
  | none ↦ none
  | some job ↦
      if not (is_standby job.status)
      then none
      else some (
          abort_pending now id
            (record m { jobs = put id (record job { has_aborted = true }) m.jobs }))
]

-- The first of the two that did something.
abbrev pub or_try : Option JobManager → Option JobManager → Option JobManager
or_try (some m) other = some m
or_try none other = other

abbrev pub abort_reply : JobManager → Option JobManager → JobManager × Option JobError
abort_reply m none = (m, some JobError.job_not_running)
abort_reply m (some m') = (m', none)

unfoldable pub abort : ℕ → ℕ → JobManager → JobManager × Option JobError
abort now id m =
    abort_reply m
      (or_try (abort_active now id m) (or_try (abort_queued now id m) (abort_standby now id m)))

-- A job of the store has its definition; the test for nil has no counterpart.
unfoldable pub rerun : ℕ → ℕ → ℕ → JobManager → JobManager × (JobError ⊎ ℕ)
rerun now new_id id m = elim (find_job id m) [
  | none ↦ (m, inl JobError.job_not_found)
  | some job ↦
      if not job.definition.is_rerunnable
      then (m, inl JobError.job_not_rerunnable)
      else enqueue_locked now new_id job.definition m
]

-- A job that is queued or running already is no error for a schedule.
abbrev schedule_error : JobError ⊎ ℕ → Option JobError
schedule_error (inl JobError.job_already_running) = none
schedule_error (inl e) = some e
schedule_error (inr new_id) = none

-- What a cron schedule runs: `none` where the error is nil.
unfoldable pub wrap_handler : ℕ → ℕ → JobDefinition → JobManager → JobManager × Option JobError
wrap_handler now id def m =
    let (m', outcome) = enqueue now id def.key m in (m', schedule_error outcome)

unfoldable pub set_job_result : ℕ → ℕ → ℕ → JobManager → JobManager
set_job_result now id result m =
    if is_finished (m.jobs id).status
    then m
    else publish_change EventType.update id (record m {
      jobs = put id (record (m.jobs id) { result = some result; updated_at = now }) m.jobs;
    })

-- The keys of the unfinished jobs whose key has the prefix, each once.
unfoldable pub active_keys_from : (ℕ → Bool) → (ℕ → Job) → List ℕ → List ℕ → List ℕ
active_keys_from has_prefix jobs seen [] = []
active_keys_from has_prefix jobs seen (id ∷ rest) =
    let job = jobs id in
    let skip = is_finished job.status || (not (has_prefix job.key) || mem job.key seen) in
    let others = active_keys_from has_prefix jobs (if skip then seen else job.key ∷ seen) rest in
    if skip then others else job.key ∷ others

unfoldable pub get_active_job_keys_by_prefix : (ℕ → Bool) → JobManager → List ℕ
get_active_job_keys_by_prefix has_prefix m = active_keys_from has_prefix m.jobs [] m.history
