-- ===== src/Job/Starts.antt =====
-- A job that is admitted, a run that starts and one that ends keep the invariant.
use mahiron.Base.{
  ℕ, suc, ◌<◌, ◌≡◌, refl, subst, ap, Bool, true, false, List, [], ◌∷◌, ◌++◌, length, drop, arith,
  ==_iff, some,
}
use mahiron.Base.Members.{mem, mem-append, mem-take_out, length-take_out}
use mahiron.Job.{
  JobStatus, none_of, Job, JobDefinition, JobManager, put, mark_all, trim_history, add_history,
  enqueue_item, start_job, new_job, dependencies_satisfied,
}
use mahiron.Job.Pending.{complete_active}
use mahiron.Job.Sound.{Sound, put-Sound, release-Sound, activate-Sound}
use mahiron.Job.Sound.Lists.{lengthen-Sound, forget-Sound, admit-Sound}
use mahiron.Job.Calls.{enrol}
use mahiron.Job.Locked.{
  IsSound, IsLoose, publish_change-IsSound, put_self, unfinished_closed, trim_from-Forgets,
}

pub none_of-mem :
    (l : List ℕ) (keys : ℕ → Bool) (x : ℕ) → none_of l keys ≡ true → mem x l ≡ true → keys x ≡ false
unfolding mem
none_of-mem [] keys x h e = cc
none_of-mem (y ∷ l) keys x h e = ground (arith, none_of-mem l keys x, ==_iff y x)

pub start_job-IsSound :
    (now id : ℕ) (m : JobManager)
    → IsSound m
    → IsLoose id m
    → dependencies_satisfied m (m.jobs id).definition ≡ true
    → m.running < m.max_concurrent
    → IsSound (start_job now id m)
unfolding start_job dependencies_satisfied
start_job-IsSound now id m (s, c, b) l free less =
    let started : Job = record (m.jobs id) {
      status = JobStatus.running;
      started_at = some now;
      updated_at = now;
    } in
    let s' = put-Sound s id started l (record {
      same_key = refl;
      same_definition = refl;
      still_fit = record { closed = unfinished_closed l s; retries = (s.fit id l.known).retries };
    }) in
    let e = put_self started m.jobs id in
    publish_change-IsSound _ _ _ (
      subst
          (λ d.
            Sound (put id started m.jobs) m.history m.queue (id ∷ m.active) m.active_keys
              (mark_all d.exclusive_keys true m.active_exclusive_keys))
          (ap (λ j. j.definition) e)
          (activate-Sound s' id l.known l.off_active (ap (λ j. j.status) e) (λ x h.
            none_of-mem (m.jobs id).definition.exclusive_keys m.active_exclusive_keys x
              (ground arith) (rw (← ap (λ j. j.definition) e) h))),
      ap suc c,
      omega arith,
    )

pub complete_active-IsSound :
    (id : ℕ) (m : JobManager)
    → IsSound m
    → mem id m.active ≡ true
    → IsSound (complete_active id m) × IsLoose id (complete_active id m)
unfolding complete_active
complete_active-IsSound id m (s, c, b) a =
    let short = length-take_out id m.active a in
    (
      (release-Sound s id a, omega arith, omega arith),
      record {
        known = s.active_known id a;
        off_queue = ground (arith, s.waits id, s.runs id a);
        off_active = ground (arith, mem-take_out id id m.active s.active_unique);
        unfinished = rw (s.runs id a) refl;
      },
    )

pub enrol-IsSound :
    (now id : ℕ) (def : JobDefinition) (m : JobManager)
    → IsSound m
    → mem id m.history ≡ false
    → m.active_keys def.key ≡ false
    → IsSound (enrol now id def m)
unfolding enrol add_history enqueue_item trim_history
enrol-IsSound now id def m (s, c, b) fresh free =
    let new = new_job now def in
    let e = put_self new m.jobs id in
    let admitted =
      admit-Sound s id new fresh free refl (record { closed = refl; retries = omega arith }) in
    let f =
      trim_from-Forgets (length (m.history ++ id ∷ [])) (put id new m.jobs) m.max_history
        (m.history ++ id ∷ []) (drop 1 m.spare) in
    let trimmed = forget-Sound admitted _ (λ k. (f k).0) (λ k. (f k).1) in
    publish_change-IsSound _ _ _ (
      lengthen-Sound trimmed id
          ((f id).1 (unfold mem in ground (arith, mem-append id m.history (id ∷ []))) (rw e refl))
          (ground (arith, s.queue_known id)) (rw e refl),
      c,
      b,
    )
