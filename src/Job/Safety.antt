-- ===== src/Job/Safety.antt =====
-- What the invariant says of every state that a new manager reaches.
use mahiron.Base.{ℕ, ◌≤◌, ◌≡◌, Bool, true, false, length, ◌==◌, if◌then◌else◌, arith, inl}
use mahiron.Base.Members.{mem, IsUnique}
use mahiron.Job.{JobStatus, JobDefinition, JobManager, is_finished}
use mahiron.Job.Calls.{JobError, enqueue_locked, refusal}
use mahiron.Job.Steps.{Reachable, Reachable-IsSound}

module _ (max_history max_concurrent : ℕ) (has_events : Bool) (m : JobManager)
    (reach : Reachable max_history max_concurrent has_events m) where
  -- In every state that a new manager reaches, the counter of the running jobs is the number of the
  -- entries of the map of cancel functions and is at most the manager's limit, and the job of each entry
  -- is of the status running and in the history.
  pub Reachable-running :
      (m.running ≡ length m.active)
      × (m.running ≤ m.max_concurrent)
      × IsUnique m.active
      × ((k : ℕ)
          → mem k m.active ≡ true
          → ((m.jobs k).status ≡ JobStatus.running) × (mem k m.history ≡ true))
  Reachable-running =
      let (s, c, b) = Reachable-IsSound reach in
      (c, b, s.active_unique, λ k h. (s.runs k h, s.active_known k h))

  -- In every state that a new manager reaches, two running jobs that have an exclusive key in common are
  -- one job, and two jobs of the history that have the same key and are both not finished are one job.
  pub Reachable-exclusive :
      ((j k x : ℕ)
        → mem j m.active ≡ true
        → mem k m.active ≡ true
        → mem x (m.jobs j).definition.exclusive_keys ≡ true
        → mem x (m.jobs k).definition.exclusive_keys ≡ true
        → j ≡ k)
      × ((j k : ℕ)
          → mem j m.history ≡ true
          → mem k m.history ≡ true
          → is_finished (m.jobs j).status ≡ false
          → is_finished (m.jobs k).status ≡ false
          → (m.jobs j).key ≡ (m.jobs k).key
          → j ≡ k)
  Reachable-exclusive = let (s, c, b) = Reachable-IsSound reach in (s.apart, s.one_each)

  -- In every state that a new manager reaches, the channel `done` of a job of the history was closed once
  -- if the job is finished and never if not, and the job was retried at most once for each delay of its
  -- definition.
  pub Reachable-done :
      (k : ℕ)
      → mem k m.history ≡ true
      → ((m.jobs k).closes ≡ (if is_finished (m.jobs k).status then 1 else 0))
        × ((m.jobs k).retry_count ≤ length (m.jobs k).definition.retry_delays)
  Reachable-done k h =
      let (s, c, b) = Reachable-IsSound reach in let f = s.fit k h in (f.closed, f.retries)

  -- In every state that a new manager reaches and that is not shut down, a definition that names a handler
  -- and the key of a job that is queued, in standby or running is refused, and nothing changes.
  pub Reachable-refuses :
      (now id k : ℕ) (def : JobDefinition)
      → m.is_shutdown ≡ false
      → def.has_handler ≡ true
      → (def.key == 0) ≡ false
      → mem k m.history ≡ true
      → is_finished (m.jobs k).status ≡ false
      → (m.jobs k).key ≡ def.key
      → enqueue_locked now id def m ≡ (m, inl JobError.job_already_running)
  unfolding enqueue_locked refusal
  Reachable-refuses now id k def open_ handler named h u same =
      let (s, c, b) = Reachable-IsSound reach in ground (arith, s.keyed k h u)
