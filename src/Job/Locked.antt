-- ===== src/Job/Locked.antt =====
-- The steps under the lock keep the invariant: the counters, the history, the start and the end of a run.
use mahiron.Base.{
  ℕ, zero, suc, ◌<◌, ◌≤◌, ◌≡◌, refl, ap, ◌∙◌, Bool, true, false, List, [], ◌∷◌, length, arith,
  Option-cases, inl, inr, Option, some,
}
use mahiron.Base.Members.{mem}
use mahiron.Job.{
  HandlerError, is_finished, is_standby, Job, JobManager, EventType, put, publish_change,
  trim_history, trim_from, trim_round, drop_finished, enqueue_item,
}
use mahiron.Job.Pending.{standby, finish, finished_job, retry_to_queue}
use mahiron.Job.Sound.{IsFit, Sound, Loose, Same, put-Sound}
use mahiron.Job.Sound.Lists.{lengthen-Sound, forget-Sound, untake-Sound}

abbrev pub IsSound : JobManager → Type 0
IsSound m =
    Sound m.jobs m.history m.queue m.active m.active_keys m.active_exclusive_keys
    × (m.running ≡ length m.active)
    × (m.running ≤ m.max_concurrent)

abbrev pub IsLoose : ℕ → JobManager → Type 0
IsLoose id m = Loose m.jobs m.history m.queue m.active id

-- One history is another without some finished jobs.
abbrev pub Forgets : (ℕ → Job) → List ℕ → List ℕ → Type 0
Forgets jobs long short =
    (k : ℕ)
    → (mem k short ≡ true → mem k long ≡ true)
      × (mem k long ≡ true → is_finished (jobs k).status ≡ false → mem k short ≡ true)

drop_finished-Forgets :
    (jobs : ℕ → Job) (l short : List ℕ) → drop_finished jobs l ≡ some short → Forgets jobs l short
unfolding drop_finished mem
drop_finished-Forgets jobs [] short e k = cc
drop_finished-Forgets jobs (id ∷ rest) short e k = elim (Option-cases (drop_finished jobs rest)) [
  | inl n ↦ ground (arith, n)
  | inr (r, q) ↦ ground (arith, q, drop_finished-Forgets jobs rest r q k)
]

trim_round-Forgets :
    (jobs : ℕ → Job) (bound : ℕ) (l spare short behind : List ℕ)
    → trim_round jobs bound l spare ≡ some (short, behind)
    → Forgets jobs l short
unfolding trim_round
trim_round-Forgets jobs bound l spare short behind e k =
    elim (Option-cases (drop_finished jobs l)) [
      | inl n ↦ ground (arith, n)
      | inr (r, q) ↦ ground (arith, q, drop_finished-Forgets jobs l r q k)
    ]

pub trim_from-Forgets :
    (fuel : ℕ) (jobs : ℕ → Job) (bound : ℕ) (l spare : List ℕ)
    → Forgets jobs l (trim_from fuel jobs bound l spare).0
unfolding trim_from
trim_from-Forgets zero jobs bound l spare k = (λ h. h, λ h u. h)
trim_from-Forgets (suc fuel) jobs bound l spare k =
    elim (Option-cases (trim_round jobs bound l spare)) [
      | inl n ↦ rw (n, trim_from) (λ h. h, λ h u. h)
      | inr ((short, behind), q) ↦
          let f = trim_round-Forgets jobs bound l spare short behind q k in
          let g = trim_from-Forgets fuel jobs bound short behind k in
          rw (q, trim_from) (λ h. f.0 (g.0 h), λ h u. g.1 (f.1 h u) u)
    ]

pub publish_change-IsSound :
    (kind : EventType) (id : ℕ) (m : JobManager) → IsSound m → IsSound (publish_change kind id m)
unfolding publish_change
publish_change-IsSound kind id m s = s

pub trim_history-IsSound : (m : JobManager) → IsSound m → IsSound (trim_history m)
unfolding trim_history
trim_history-IsSound m (s, c, b) =
    let f = trim_from-Forgets (length m.history) m.jobs m.max_history m.history m.spare in
    (forget-Sound s _ (λ k. (f k).0) (λ k. (f k).1), c, b)

-- The history keeps every job that is not finished.
pub trim_history-IsLoose : (k : ℕ) (m : JobManager) → IsLoose k m → IsLoose k (trim_history m)
unfolding trim_history
trim_history-IsLoose k m l = record {
  known =
      (trim_from-Forgets (length m.history) m.jobs m.max_history m.history m.spare k).1 l.known
        l.unfinished;
  off_queue = l.off_queue;
  off_active = l.off_active;
  unfinished = l.unfinished;
}

pub put_self : (new : Job) (jobs : ℕ → Job) (id : ℕ) → put id new jobs id ≡ new
unfolding put
put_self new jobs id = ground arith

module _ {jobs : ℕ → Job} {history queue active : List ℕ} {taken exclusive : ℕ → Bool} where
  -- A job in standby is in no list but the history.
  pub standby-Loose :
      {id : ℕ}
      → Sound jobs history queue active taken exclusive
      → is_standby (jobs id).status ≡ true
      → Loose jobs history queue active id
  standby-Loose {id} s st = record {
    known = s.standby_known id st;
    off_queue = ground (arith, s.waits id);
    off_active = ground (arith, s.runs id);
    unfinished = ground arith;
  }

  pub unfinished_closed :
      {id : ℕ}
      → Loose jobs history queue active id
      → Sound jobs history queue active taken exclusive
      → (jobs id).closes ≡ 0
  unfinished_closed {id} l s = (s.fit id l.known).closed ∙ rw (l.unfinished) refl

finished_job-Same :
    (now : ℕ) (failure : Option HandlerError) (aborted : Bool) (job : Job)
    → IsFit job
    → is_finished job.status ≡ false
    → Same (finished_job now failure aborted job) job
unfolding finished_job
finished_job-Same now failure aborted job f u = record {
  same_key = refl;
  same_definition = refl;
  still_fit = record { closed = ap suc (f.closed ∙ rw u refl); retries = f.retries };
}

pub finish-IsSound :
    (now id : ℕ) (failure : Option HandlerError) (aborted : Bool) (m : JobManager)
    → IsSound m
    → IsLoose id m
    → IsSound (finish now id failure aborted m)
unfolding finish
finish-IsSound now id failure aborted m (s, c, b) l = rw (l.unfinished) (
    trim_history-IsSound _ (
      publish_change-IsSound _ _ _ (
        untake-Sound
            (put-Sound s id (finished_job now failure aborted (m.jobs id)) l
              (finished_job-Same now failure aborted (m.jobs id) (s.fit id l.known) l.unfinished))
            (m.jobs id).key
            (λ k h u.
              unfold put finished_job in ground (arith, s.one_each id k l.known h l.unfinished)),
        c,
        b,
      )))

pub standby-IsSound :
    (now id : ℕ) (failure : Option HandlerError) (m : JobManager)
    → IsSound m
    → IsLoose id m
    → (m.jobs id).retry_count < length (m.jobs id).definition.retry_delays
    → IsSound (standby now id failure m)
unfolding standby
standby-IsSound now id failure m (s, c, b) l less = publish_change-IsSound _ _ _ (
  put-Sound s id _ l (record {
    same_key = refl;
    same_definition = refl;
    still_fit = record { closed = unfinished_closed l s; retries = omega arith };
  }),
  c,
  b,
)

pub retry_to_queue-IsSound :
    (now id : ℕ) (m : JobManager)
    → IsSound m
    → is_standby (m.jobs id).status ≡ true
    → IsSound (retry_to_queue now id m)
unfolding retry_to_queue enqueue_item
retry_to_queue-IsSound now id m (s, c, b) st = publish_change-IsSound _ _ _ (
  lengthen-Sound
      (put-Sound s id _ (standby-Loose s st) (record {
        same_key = refl;
        same_definition = refl;
        still_fit = record {
          closed = unfinished_closed (standby-Loose s st) s;
          retries = (s.fit id (s.standby_known id st)).retries;
        };
      }))
      id (s.standby_known id st) (standby-Loose s st).off_queue (rw (put_self _ m.jobs id) refl),
  c,
  b,
)
