-- ===== src/Job/Dispatch.antt =====
-- The dispatcher: what the loop starts, that its fuel is enough, and that it goes on until it must stop.
use mahiron.Base.{
  ℕ, zero, suc, ◌<◌, ◌≤◌, ◌≡◌, refl, ap, ◌∙◌, Bool, true, false, List, [], ◌∷◌, length, arith,
  Option-cases, inl, inr, none, some,
}
use mahiron.Base.Members.{
  mem, take_out, mem-take_out, mem-take_out_le, take_out-IsUnique, length-take_out,
}
use mahiron.Job.{
  is_finished, none_of, JobManager, pop_runnable, may_run, dispatch, dispatch_from, dispatch_round,
  start_job, dependencies_satisfied, publish_change,
}
use mahiron.Job.Sound.Lists.{shorten-Sound}
use mahiron.Job.Locked.{IsSound}
use mahiron.Job.Starts.{start_job-IsSound, none_of-mem}

-- The job that the queue yields: it is in the queue, it may run, and the rest is the queue without it.
abbrev Popped : (ℕ → Bool) → List ℕ → ℕ → List ℕ → Type 0
Popped may l id rest = (mem id l ≡ true) × (may id ≡ true) × (rest ≡ take_out id l)

pop_runnable-Popped :
    (may : ℕ → Bool) (l : List ℕ) (id : ℕ) (rest : List ℕ)
    → pop_runnable may l ≡ some (id, rest)
    → Popped may l id rest
unfolding pop_runnable mem take_out
pop_runnable-Popped may [] id rest e = cc
pop_runnable-Popped may (x ∷ l) id rest e = elim (Option-cases (pop_runnable may l)) [
  | inl n ↦ ground (arith, n)
  | inr ((found, others), q) ↦ ground (arith, q, pop_runnable-Popped may l found others q)
]

-- Nothing in the queue may run if it yields nothing.
pop_runnable-eq_none :
    (may : ℕ → Bool) (l : List ℕ) (id : ℕ)
    → pop_runnable may l ≡ none
    → mem id l ≡ true
    → may id ≡ false
unfolding pop_runnable mem
pop_runnable-eq_none may [] id e h = cc
pop_runnable-eq_none may (x ∷ l) id e h = elim (Option-cases (pop_runnable may l)) [
  | inl n ↦ ground (arith, n, pop_runnable-eq_none may l id n)
  | inr ((found, others), q) ↦ ground (arith, q)
]

absent :
    (l : List ℕ) (keys : ℕ → Bool) (x : ℕ) → none_of l keys ≡ true → keys x ≡ true → mem x l ≡ false
absent l keys x free taken = ground (arith, none_of-mem l keys x free)

-- What a round that starts a job does.
record Started (now : ℕ) (m next : JobManager) : Type 0 where
  id : ℕ
  queued : mem id m.queue ≡ true
  ready : may_run m id ≡ true
  room : m.running < m.max_concurrent
  open_ : m.is_shutdown ≡ false
  result : next ≡ start_job now id (record m { queue = take_out id m.queue })

dispatch_round-Started :
    (now : ℕ) (m next : JobManager) → dispatch_round now m ≡ some next → Started now m next
unfolding dispatch_round
dispatch_round-Started now m next e = elim (Option-cases (pop_runnable (may_run m) m.queue)) [
  | inl n ↦ ground (arith, n)
  | inr ((id, rest), q) ↦
      let (there, may, r) = pop_runnable-Popped (may_run m) m.queue id rest q in
      record {
        id = id;
        queued = there;
        ready = may;
        room = ground (arith, q);
        open_ = ground (arith, q);
        result = rw (← r) (ground (arith, q));
      }
]

dispatch_round-IsSound :
    (now : ℕ) (m next : JobManager) → IsSound m → dispatch_round now m ≡ some next → IsSound next
unfolding may_run
dispatch_round-IsSound now m next (s, c, b) e =
    let d = dispatch_round-Started now m next e in
    let id = d.id in
    let rest = take_out id m.queue in
    let s' =
      shorten-Sound s rest (take_out-IsUnique id m.queue s.queue_unique)
        (λ k h. mem-take_out_le id k m.queue h) in
    rw d.result (
      start_job-IsSound now id (record m { queue = rest }) (s', c, b)
        (record {
          known = s.queue_known id d.queued;
          off_queue = ground (arith, mem-take_out id id m.queue s.queue_unique);
          off_active = ground (arith, s.waits id d.queued, s.runs id);
          unfinished = rw (s.waits id d.queued) refl;
        })
        (unfold dependencies_satisfied in d.ready) d.room)

dispatch_from-IsSound :
    (fuel now : ℕ) (m : JobManager) → IsSound m → IsSound (dispatch_from fuel now m)
unfolding dispatch_from
dispatch_from-IsSound zero now m s = s
dispatch_from-IsSound (suc fuel) now m s = elim (Option-cases (dispatch_round now m)) [
  | inl n ↦ rw (n, dispatch_from) s
  | inr (next, e) ↦
      rw (e, dispatch_from)
        (dispatch_from-IsSound fuel now next (dispatch_round-IsSound now m next s e))
]

pub dispatch-IsSound : (now : ℕ) (m : JobManager) → IsSound m → IsSound (dispatch now m)
unfolding dispatch
dispatch-IsSound now m s = dispatch_from-IsSound (length m.queue) now m s

mem-lt_length : (id : ℕ) (l : List ℕ) → mem id l ≡ true → 0 < length l
unfolding mem
mem-lt_length id [] h = cc
mem-lt_length id (x ∷ l) h = omega arith

dispatch_round-length :
    (now : ℕ) (m next : JobManager)
    → dispatch_round now m ≡ some next
    → suc (length next.queue) ≡ length m.queue
unfolding start_job publish_change
dispatch_round-length now m next e =
    let d = dispatch_round-Started now m next e in
    ap (λ x. suc (length x.queue)) d.result ∙ length-take_out d.id m.queue d.queued

-- Nothing more can start.
abbrev IsIdle : JobManager → Type 0
IsIdle m =
    (id : ℕ)
    → m.running < m.max_concurrent
    → m.is_shutdown ≡ false
    → mem id m.queue ≡ true
    → may_run m id ≡ false

dispatch_round-IsIdle : (now : ℕ) (m : JobManager) → dispatch_round now m ≡ none → IsIdle m
unfolding dispatch_round mem
dispatch_round-IsIdle now m e id room open_ there =
    elim (Option-cases (pop_runnable (may_run m) m.queue)) [
      | inl n ↦ pop_runnable-eq_none (may_run m) m.queue id n there
      | inr ((found, rest), q) ↦ let filled = mem-lt_length id m.queue there in ground (arith, q)
    ]

dispatch_from-IsIdle :
    (fuel now : ℕ) (m : JobManager) → length m.queue ≤ fuel → IsIdle (dispatch_from fuel now m)
unfolding dispatch_from
dispatch_from-IsIdle zero now m enough =
    λ id room open_ there. let filled = mem-lt_length id m.queue there in absurd (omega arith)
dispatch_from-IsIdle (suc fuel) now m enough = elim (Option-cases (dispatch_round now m)) [
  | inl n ↦ rw (n, dispatch_from) (dispatch_round-IsIdle now m n)
  | inr (next, e) ↦
      rw (e, dispatch_from)
        (dispatch_from-IsIdle fuel now next
          (let short = dispatch_round-length now m next e in omega arith))
]

dispatch_from-fixed :
    (fuel now : ℕ) (m : JobManager)
    → ((dispatch_from fuel now m).max_concurrent ≡ m.max_concurrent)
      × ((dispatch_from fuel now m).is_shutdown ≡ m.is_shutdown)
unfolding dispatch_from start_job publish_change
dispatch_from-fixed zero now m = (refl, refl)
dispatch_from-fixed (suc fuel) now m = elim (Option-cases (dispatch_round now m)) [
  | inl n ↦ rw (n, dispatch_from) (refl, refl)
  | inr (next, e) ↦
      let d = dispatch_round-Started now m next e in
      let (later, closed) = dispatch_from-fixed fuel now next in
      rw (e, dispatch_from)
        (later ∙ ap (λ x. x.max_concurrent) d.result, closed ∙ ap (λ x. x.is_shutdown) d.result)
]

-- After the dispatcher has run, a job still waits in the queue only if all slots are taken, if the
-- manager is shut down, or if a key that the job depends on or excludes is taken.
pub dispatch-idle :
    (now id : ℕ) (m : JobManager)
    → (dispatch now m).running < m.max_concurrent
    → m.is_shutdown ≡ false
    → mem id (dispatch now m).queue ≡ true
    → dependencies_satisfied (dispatch now m) ((dispatch now m).jobs id).definition ≡ false
unfolding dispatch may_run
dispatch-idle now id m room open_ there =
    let fixed = dispatch_from-fixed (length m.queue) now m in
    dispatch_from-IsIdle (length m.queue) now m (omega arith) id (rw fixed.0 room)
      (rw fixed.1 open_) there

-- A round of the dispatcher in a sound state starts a job of the queue: it runs afterwards, no unfinished
-- job has a key that it depends on, and it shares no exclusive key with a job that was running.
pub dispatch_round-safe :
    (now : ℕ) (m next : JobManager)
    → IsSound m
    → dispatch_round now m ≡ some next
    → (id : ℕ) × (mem id m.queue ≡ true)
      × (next.active ≡ id ∷ m.active)
      × ((k : ℕ)
          → mem k m.history ≡ true
          → is_finished (m.jobs k).status ≡ false
          → mem (m.jobs k).key (m.jobs id).definition.depends_on ≡ false)
      × ((k x : ℕ)
          → mem k m.active ≡ true
          → mem x (m.jobs k).definition.exclusive_keys ≡ true
          → mem x (m.jobs id).definition.exclusive_keys ≡ false)
unfolding may_run dependencies_satisfied start_job publish_change
dispatch_round-safe now m next (s, c, b) e =
    let d = dispatch_round-Started now m next e in
    let def = (m.jobs d.id).definition in
    (
      d.id,
      d.queued,
      ap (λ x. x.active) d.result,
      λ k known u.
          absent def.depends_on m.active_keys _ (ground (arith, d.ready)) (s.keyed k known u),
      λ k x a h.
          absent def.exclusive_keys m.active_exclusive_keys x (ground (arith, d.ready))
            (s.marked k x a h),
    )
