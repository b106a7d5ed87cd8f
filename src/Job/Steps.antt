-- ===== src/Job/Steps.antt =====
-- The job manager as a state machine: every locked section that changes a job, and what holds in each
-- state that it reaches from `NewManager`.
use mahiron.Base.{
  ℕ, ◌<◌, ◌≡◌, refl, Bool, true, false, ◌||◌, ◌&&◌, not, length, if◌then◌else◌, arith, Bool-cases,
  Option-cases, inl, inr, ◌⊎◌, Option, none, some,
}
use mahiron.Base.Assoc.{lookup}
use mahiron.Base.Members.{mem}
use mahiron.Job.{
  HandlerError, JobDefinition, Job, JobManager, is_finished, is_standby, publish_change,
  new_manager, register,
}
use mahiron.Job.Pending.{complete_run, complete_active, should_retry, timer_fired, shutdown}
use mahiron.Job.Calls.{
  JobError, enqueue_locked, enqueue, refusal, rerun, find_job, abort, set_job_result,
}
use mahiron.Job.Sound.{touch-Sound}
use mahiron.Job.Locked.{IsSound, standby-IsSound, finish-IsSound, retry_to_queue-IsSound}
use mahiron.Job.Starts.{complete_active-IsSound, enrol-IsSound}
use mahiron.Job.Dispatch.{dispatch-IsSound}
use mahiron.Job.Abort.{abort-IsSound, shutdown-IsSound}

-- A job gets an ID that no job of the history has; a handler returns once for each start.
pub data Step : JobManager → JobManager → Type 0 where
  registered : (def : JobDefinition) (m : JobManager) → Step m (register def m)
  enqueued :
      (now id key : ℕ) (m : JobManager) → mem id m.history ≡ false → Step m (enqueue now id key m).0
  defined :
      (now id : ℕ) (def : JobDefinition) (m : JobManager)
      → mem id m.history ≡ false
      → Step m (enqueue_locked now id def m).0
  reran :
      (now new_id id : ℕ) (m : JobManager)
      → mem new_id m.history ≡ false
      → Step m (rerun now new_id id m).0
  returned :
      (now id : ℕ) (failure : Option HandlerError) (m : JobManager)
      → mem id m.active ≡ true
      → Step m (complete_run now id failure m)
  woken : (now id : ℕ) (m : JobManager) → Step m (timer_fired now id m)
  aborted : (now id : ℕ) (m : JobManager) → Step m (abort now id m).0
  reported : (now id result : ℕ) (m : JobManager) → Step m (set_job_result now id result m)
  closed : (now : ℕ) (m : JobManager) → Step m (shutdown now m)

-- The states that a new manager reaches.
pub data Reachable (max_history max_concurrent : ℕ) (has_events : Bool) : JobManager → Type 0 where
  start :
      Reachable max_history max_concurrent has_events
        (new_manager max_history max_concurrent has_events)
  then_ :
      {m m' : JobManager}
      → Reachable max_history max_concurrent has_events m
      → Step m m'
      → Reachable max_history max_concurrent has_events m'

new_manager-IsSound :
    (max_history max_concurrent : ℕ) (has_events : Bool)
    → IsSound (new_manager max_history max_concurrent has_events)
unfolding new_manager mem
new_manager-IsSound max_history max_concurrent has_events = (
  record {
    queue_unique = tt;
    active_unique = tt;
    waits = λ k h. cc;
    runs = λ k h. cc;
    queue_known = λ k h. cc;
    active_known = λ k h. cc;
    standby_known = λ k h. cc;
    fit = λ k h. cc;
    keyed = λ k h. cc;
    one_each = λ j k h. cc;
    marked = λ k x h. cc;
    apart = λ j k x h. cc;
  },
  refl,
  omega arith,
)

enqueue_locked-IsSound :
    (now id : ℕ) (def : JobDefinition) (m : JobManager)
    → IsSound m
    → mem id m.history ≡ false
    → IsSound (enqueue_locked now id def m).0
unfolding enqueue_locked
enqueue_locked-IsSound now id def m s fresh = elim (Option-cases (refusal def m)) [
  | inl n ↦
      rw (n, enqueue_locked)
        (dispatch-IsSound now _
          (enrol-IsSound now id def m s fresh (unfold refusal in ground arith)))
  | inr (e, q) ↦ rw (q, enqueue_locked) s
]

enqueue-IsSound :
    (now id key : ℕ) (m : JobManager)
    → IsSound m
    → mem id m.history ≡ false
    → IsSound (enqueue now id key m).0
unfolding enqueue
enqueue-IsSound now id key m s fresh = elim (Option-cases (lookup key m.definitions)) [
  | inl n ↦ rw (n, enqueue) s
  | inr (def, q) ↦ rw (q, enqueue) (enqueue_locked-IsSound now id def m s fresh)
]

either-IsSound :
    (b : Bool) (x y : JobManager × (JobError ⊎ ℕ))
    → IsSound x.0
    → IsSound y.0
    → IsSound (if b then x else y).0
either-IsSound true x y h k = h
either-IsSound false x y h k = k

rerun-IsSound :
    (now new_id id : ℕ) (m : JobManager)
    → IsSound m
    → mem new_id m.history ≡ false
    → IsSound (rerun now new_id id m).0
unfolding rerun
rerun-IsSound now new_id id m s fresh = elim (Option-cases (find_job id m)) [
  | inl n ↦ rw (n, rerun) s
  | inr (job, q) ↦
      rw (q, rerun)
        (either-IsSound (not job.definition.is_rerunnable) (m, inl JobError.job_not_rerunnable) _ s
          (enqueue_locked-IsSound now new_id job.definition m s fresh))
]

-- A retry that is due is within the delays of the definition.
should_retry-lt :
    (m : JobManager) (job : Job) (failure : Option HandlerError)
    → should_retry m job failure ≡ true
    → job.retry_count < length job.definition.retry_delays
unfolding should_retry
should_retry-lt m job none h = cc
should_retry-lt m job (some e) h = ground arith

complete_run-IsSound :
    (now id : ℕ) (failure : Option HandlerError) (m : JobManager)
    → IsSound m
    → mem id m.active ≡ true
    → IsSound (complete_run now id failure m)
unfolding complete_run
complete_run-IsSound now id failure m s a =
    let m' = complete_active id m in
    let (s', l) = complete_active-IsSound id m s a in
    let job = m'.jobs id in
    dispatch-IsSound now _ (elim (Bool-cases (not job.has_aborted && should_retry m' job failure)) [
      | inl y ↦
          rw (y, complete_run)
            (standby-IsSound now id failure m' s' l (should_retry-lt m' job failure (ground arith)))
      | inr y ↦ rw (y, complete_run) (finish-IsSound now id failure job.has_aborted m' s' l)
    ])

timer_fired-IsSound : (now id : ℕ) (m : JobManager) → IsSound m → IsSound (timer_fired now id m)
unfolding timer_fired
timer_fired-IsSound now id m s =
    elim (Bool-cases
      (not (is_standby (m.jobs id).status) || ((m.jobs id).has_aborted || m.is_shutdown))) [
        | inl y ↦ rw (y, timer_fired) s
        | inr y ↦
            rw (y, timer_fired)
              (dispatch-IsSound now _ (retry_to_queue-IsSound now id m s (ground arith)))
      ]

set_job_result-IsSound :
    (now id result : ℕ) (m : JobManager) → IsSound m → IsSound (set_job_result now id result m)
unfolding set_job_result publish_change
set_job_result-IsSound now id result m (s, c, b) =
    elim (Bool-cases (is_finished (m.jobs id).status)) [
      | inl y ↦ rw (y, set_job_result) (s, c, b)
      | inr y ↦
          rw (y, set_job_result)
            (
              touch-Sound s id _ refl
                  (λ h. record { closed = (s.fit id h).closed; retries = (s.fit id h).retries })
                  refl refl,
              c,
              b,
            )
    ]

Step-IsSound : {m m' : JobManager} → Step m m' → IsSound m → IsSound m'
Step-IsSound (registered def m) s = unfold register in s
Step-IsSound (enqueued now id key m fresh) s = enqueue-IsSound now id key m s fresh
Step-IsSound (defined now id def m fresh) s = enqueue_locked-IsSound now id def m s fresh
Step-IsSound (reran now new_id id m fresh) s = rerun-IsSound now new_id id m s fresh
Step-IsSound (returned now id failure m a) s = complete_run-IsSound now id failure m s a
Step-IsSound (woken now id m) s = timer_fired-IsSound now id m s
Step-IsSound (aborted now id m) s = abort-IsSound now id m s
Step-IsSound (reported now id result m) s = set_job_result-IsSound now id result m s
Step-IsSound (closed now m) s = shutdown-IsSound now m s

pub Reachable-IsSound :
    {max_history max_concurrent : ℕ} {has_events : Bool} {m : JobManager}
    → Reachable max_history max_concurrent has_events m
    → IsSound m
Reachable-IsSound {max_history} {max_concurrent} {has_events} start =
    new_manager-IsSound max_history max_concurrent has_events
Reachable-IsSound (then_ before step) = Step-IsSound step (Reachable-IsSound before)
