-- ===== src/Job/Abort.antt =====
-- An abort and a shutdown keep the invariant, and a shutdown leaves nothing in the queue.
use mahiron.Base.{
  ℕ, zero, suc, ◌≡◌, refl, Bool, true, false, List, [], ◌∷◌, ◌++◌, get_or, ◌==◌, arith, Bool-cases,
  inl, inr, Option, none, some, ==_iff,
}
use mahiron.Base.Members.{mem, IsUnique, take_out, mem-take_out, mem-take_out_le, take_out-IsUnique}
use mahiron.Job.{HandlerError, Job, JobManager, is_finished, is_standby, put, publish_change}
use mahiron.Job.Pending.{
  finish, abort_pending, abort_all, abort_if_standby, abort_standby_from, abort_queued_and_standby,
  cancel_active, shutdown, context_canceled,
}
use mahiron.Job.Calls.{
  abort_active, abort_queued, abort_standby, abort, or_try, abort_reply, request_abort, find_job,
}
use mahiron.Job.Sound.{touch-Sound}
use mahiron.Job.Sound.Lists.{shorten-Sound}
use mahiron.Job.Locked.{
  IsSound, IsLoose, standby-Loose, put_self, finish-IsSound, trim_history-IsLoose,
}

-- Another job that is loose stays so when a job is finished.
finish-IsLoose :
    (now id k : ℕ) (failure : Option HandlerError) (aborted : Bool) (m : JobManager)
    → (id == k) ≡ false
    → IsLoose k m
    → IsLoose k (finish now id failure aborted m)
unfolding finish publish_change put
finish-IsLoose now id k failure aborted m other l =
    elim (Bool-cases (is_finished (m.jobs id).status)) [
      | inl f ↦ rw (f, finish) l
      | inr f ↦
          rw (f, finish)
            (trim_history-IsLoose k _ (record {
              known = l.known;
              off_queue = l.off_queue;
              off_active = l.off_active;
              unfinished = rw other l.unfinished;
            }))
    ]

abort_pending-IsSound :
    (now id : ℕ) (m : JobManager) → IsSound m → IsLoose id m → IsSound (abort_pending now id m)
unfolding abort_pending
abort_pending-IsSound now id m (s, c, b) l =
    finish-IsSound now id (some context_canceled) true _
      (
        touch-Sound s id (record (m.jobs id) { is_aborting = true }) refl
            (λ h. record { closed = (s.fit id h).closed; retries = (s.fit id h).retries }) refl
            refl,
        c,
        b,
      )
      (record {
        known = l.known;
        off_queue = l.off_queue;
        off_active = l.off_active;
        unfinished = unfold put in ground (arith, l.unfinished);
      })

abort_if_standby-IsSound :
    (now id : ℕ) (m : JobManager) → IsSound m → IsSound (abort_if_standby now id m)
unfolding abort_if_standby
abort_if_standby-IsSound now id m s = elim (Bool-cases (is_standby (m.jobs id).status)) [
  | inl st ↦ rw (st, abort_if_standby) (abort_pending-IsSound now id m s (standby-Loose s.0 st))
  | inr st ↦ rw (st, abort_if_standby) s
]

abort_standby_from-IsSound :
    (left now position : ℕ) (m : JobManager)
    → IsSound m
    → IsSound (abort_standby_from left now position m)
unfolding abort_standby_from
abort_standby_from-IsSound zero now position m s = s
abort_standby_from-IsSound (suc left) now position m s =
    let id = get_or (m.history ++ m.spare) position 0 in
    abort_standby_from-IsSound left now (suc position) (abort_if_standby now id m)
      (abort_if_standby-IsSound now id m s)

abort_pending-IsLoose :
    (now id k : ℕ) (m : JobManager)
    → (id == k) ≡ false
    → IsLoose k m
    → IsLoose k (abort_pending now id m)
unfolding abort_pending
abort_pending-IsLoose now id k m other l =
    finish-IsLoose now id k (some context_canceled) true _ other (record {
      known = l.known;
      off_queue = l.off_queue;
      off_active = l.off_active;
      unfinished = unfold put in rw other l.unfinished;
    })

abort_all-IsSound :
    (now : ℕ) (l : List ℕ) (m : JobManager)
    → IsUnique l
    → ((k : ℕ) → mem k l ≡ true → IsLoose k m)
    → IsSound m
    → IsSound (abort_all now l m)
unfolding abort_all
abort_all-IsSound now [] m u loose s = s
abort_all-IsSound now (id ∷ l) m (fresh, u) loose s =
    abort_all-IsSound now l (abort_pending now id m) u
      (λ k h.
        abort_pending-IsLoose now id k m (ground (arith, ==_iff id k))
          (loose k (unfold mem in ground arith)))
      (abort_pending-IsSound now id m s (loose id (unfold mem in ground arith)))

queued-IsLoose :
    (k : ℕ) (m : JobManager) (queue : List ℕ)
    → IsSound m
    → mem k m.queue ≡ true
    → mem k queue ≡ false
    → IsLoose k (record m { queue = queue })
queued-IsLoose k m queue (s, c, b) h off = record {
  known = s.queue_known k h;
  off_queue = off;
  off_active = ground (arith, s.waits k h, s.runs k);
  unfinished = rw (s.waits k h) refl;
}

abort_queued_and_standby-IsSound :
    (now : ℕ) (m : JobManager) → IsSound m → IsSound (abort_queued_and_standby now m)
unfolding abort_queued_and_standby
abort_queued_and_standby-IsSound now m (s, c, b) = abort_standby_from-IsSound _ now 0 _ (
    abort_all-IsSound now m.queue (record m { queue = [] }) s.queue_unique
      (λ k h. queued-IsLoose k m [] (s, c, b) h (unfold mem in refl))
      (shorten-Sound s [] tt (λ k h. unfold mem in cc), c, b))

pub shutdown-IsSound : (now : ℕ) (m : JobManager) → IsSound m → IsSound (shutdown now m)
unfolding shutdown cancel_active
shutdown-IsSound now m s = abort_queued_and_standby-IsSound now (record m { is_shutdown = true }) s

-- The state that an attempt gives, if it gives one.
abbrev Every : Option JobManager → Type 0
Every none = Unit {0}
Every (some m) = IsSound m

or_try-Every : (a b : Option JobManager) → Every a → Every b → Every (or_try a b)
or_try-Every none b ha hb = hb
or_try-Every (some m) b ha hb = ha

abort_reply-IsSound :
    (m : JobManager) (a : Option JobManager) → IsSound m → Every a → IsSound (abort_reply m a).0
abort_reply-IsSound m none s h = s
abort_reply-IsSound m (some m') s h = h

abort_active-IsSound : (now id : ℕ) (m : JobManager) → IsSound m → Every (abort_active now id m)
unfolding abort_active publish_change
abort_active-IsSound now id m (s, c, b) = elim (Bool-cases (mem id m.active)) [
  | inl a ↦
      rw (a, abort_active)
        (rw (s.active_known id a) (
          touch-Sound s id (request_abort now (m.jobs id)) refl
              (λ h. record { closed = (s.fit id h).closed; retries = (s.fit id h).retries }) refl
              refl,
          c,
          b,
        ))
  | inr a ↦ rw (a, abort_active) tt
]

abort_queued-IsSound : (now id : ℕ) (m : JobManager) → IsSound m → Every (abort_queued now id m)
unfolding abort_queued
abort_queued-IsSound now id m (s, c, b) = elim (Bool-cases (mem id m.queue)) [
  | inl a ↦
      let rest = take_out id m.queue in
      rw (a, abort_queued)
        (abort_pending-IsSound now id (record m { queue = rest })
          (
            shorten-Sound s rest (take_out-IsUnique id m.queue s.queue_unique)
                (λ k h. mem-take_out_le id k m.queue h),
            c,
            b,
          )
          (queued-IsLoose id m rest (s, c, b) a
            (ground (arith, mem-take_out id id m.queue s.queue_unique))))
  | inr a ↦ rw (a, abort_queued) tt
]

abort_standby-IsSound : (now id : ℕ) (m : JobManager) → IsSound m → Every (abort_standby now id m)
unfolding abort_standby find_job
abort_standby-IsSound now id m (s, c, b) = elim (Bool-cases (mem id m.history)) [
  | inl h ↦
      rw (h, abort_standby)
        (elim (Bool-cases (is_standby (m.jobs id).status)) [
          | inl st ↦
              let marked : Job = record (m.jobs id) { has_aborted = true } in
              let s' =
                touch-Sound s id marked refl
                  (λ h'. record { closed = (s.fit id h').closed; retries = (s.fit id h').retries })
                  refl refl in
              rw st (
                abort_pending-IsSound now id _ (s', c, b)
                  (standby-Loose s' (rw (put_self marked m.jobs id) st)))
          | inr st ↦ rw st tt
        ])
  | inr h ↦ rw (h, abort_standby) tt
]

pub abort-IsSound : (now id : ℕ) (m : JobManager) → IsSound m → IsSound (abort now id m).0
unfolding abort
abort-IsSound now id m s = abort_reply-IsSound m _ s (
    or_try-Every (abort_active now id m) _ (abort_active-IsSound now id m s) (
      or_try-Every (abort_queued now id m) _ (abort_queued-IsSound now id m s)
        (abort_standby-IsSound now id m s)))
