-- ===== src/Job/Shutdown.antt =====
-- What a shutdown gives up: every job that waits, if the history holds no more entries than its bound.
use mahiron.Base.{
  ℕ, zero, suc, ◌+◌, ◌<◌, ◌≤◌, ◌≡◌, refl, ap, ◌∙◌, Bool, true, List, [], ◌∷◌, ◌++◌, length, drop,
  get_or, ◌==◌, arith, Bool-cases, inl, inr, ◌⊎◌, Option, some, ==_iff, drop_of_length-le,
  get_or-append_lt, subst,
}
use mahiron.Base.Members.{mem, mem-append}
use mahiron.Job.{
  HandlerError, Job, JobManager, is_finished, is_standby, put, publish_change, trim_history,
  trim_from, trim_round,
}
use mahiron.Job.Pending.{
  finish, finished_job, abort_pending, abort_all, abort_if_standby, abort_standby_from,
  abort_queued_and_standby, cancel_active, shutdown, context_canceled,
}

-- One state after another: jobs of the second are finished or have the status that they had; the list of
-- running jobs and a history within its bound are as they were.
record After (m m' : JobManager) : Type 0 where
  status_or :
      (k : ℕ) → (is_finished (m'.jobs k).status ≡ true) ⊎ ((m'.jobs k).status ≡ (m.jobs k).status)
  same_active : m'.active ≡ m.active
  same_queue : m'.queue ≡ m.queue
  same_bound : m'.max_history ≡ m.max_history
  same_history : length m.history ≤ m.max_history → m'.history ≡ m.history

trim_from-within :
    (fuel : ℕ) (jobs : ℕ → Job) (bound : ℕ) (l spare : List ℕ)
    → length l ≤ bound
    → trim_from fuel jobs bound l spare ≡ (l, spare)
unfolding trim_from trim_round
trim_from-within zero jobs bound l spare h = refl
trim_from-within (suc fuel) jobs bound l spare h = ground arith

finish-After :
    (now id : ℕ) (failure : Option HandlerError) (aborted : Bool) (m : JobManager)
    → After m (finish now id failure aborted m)
      × (is_finished ((finish now id failure aborted m).jobs id).status ≡ true)
unfolding finish trim_history publish_change
finish-After now id failure aborted m = elim (Bool-cases (is_finished (m.jobs id).status)) [
  | inl f ↦
      rw (f, finish)
        (
          record {
            status_or = λ k. inr refl;
            same_active = refl;
            same_queue = refl;
            same_bound = refl;
            same_history = λ h. refl;
          },
          f,
        )
  | inr f ↦
      rw (f, finish)
        (
          record {
            status_or = λ k.
                unfold put finished_job in
                elim (Bool-cases (id == k)) [ inl e ↦ inl (rw e refl) | inr e ↦ inr (rw e refl) ];
            same_active = refl;
            same_queue = refl;
            same_bound = refl;
            same_history = λ h.
                ap (λ t. t.0)
                  (trim_from-within (length m.history) _ m.max_history m.history m.spare h);
          },
          unfold put finished_job in ground arith,
        )
]

-- The job is finished.
abbrev IsSettled : JobManager → ℕ → Type 0
IsSettled m k = is_finished (m.jobs k).status ≡ true

module _ {m m' : JobManager} (a : After m m') where
  After-finished : (k : ℕ) → IsSettled m k → IsSettled m' k
  After-finished k h = elim (a.status_or k) [ inl f ↦ f | inr e ↦ rw e h ]

  After-trans : {n : JobManager} → After n m → After n m'
  After-trans b = record {
    status_or = λ k. elim (a.status_or k) [
      | inl f ↦ inl f
      | inr e ↦ elim (b.status_or k) [ inl f ↦ inl (rw e f) | inr e' ↦ inr (e ∙ e') ]
    ];
    same_active = a.same_active ∙ b.same_active;
    same_queue = a.same_queue ∙ b.same_queue;
    same_bound = a.same_bound ∙ b.same_bound;
    same_history =
        λ h. a.same_history (rw (b.same_history h) (rw b.same_bound h)) ∙ b.same_history h;
  }

-- Where the history is within its bound, it stays so.
After-within :
    {m m' : JobManager}
    → After m m'
    → length m.history ≤ m.max_history
    → length m'.history ≤ m'.max_history
After-within a h = rw (a.same_history h) (rw a.same_bound h)

After-refl : (m : JobManager) → After m m
After-refl m = record {
  status_or = λ k. inr refl;
  same_active = refl;
  same_queue = refl;
  same_bound = refl;
  same_history = λ h. refl;
}

abort_pending-After :
    (now id : ℕ) (m : JobManager)
    → After m (abort_pending now id m) × IsSettled (abort_pending now id m) id
unfolding abort_pending
abort_pending-After now id m =
    let m' : JobManager = record m {
      jobs = put id (record (m.jobs id) { is_aborting = true }) m.jobs;
    } in
    let marked : After m m' = record {
      status_or = λ k. inr (unfold put in ground (arith, ==_iff id k));
      same_active = refl;
      same_queue = refl;
      same_bound = refl;
      same_history = λ h. refl;
    } in
    let (a, done_) = finish-After now id (some context_canceled) true m' in
    (After-trans a marked, done_)

abort_all-After :
    (now : ℕ) (l : List ℕ) (m : JobManager)
    → After m (abort_all now l m) × ((k : ℕ) → mem k l ≡ true → IsSettled (abort_all now l m) k)
unfolding abort_all mem
abort_all-After now [] m = (After-refl m, λ k h. cc)
abort_all-After now (id ∷ l) m =
    let (a, done_) = abort_pending-After now id m in
    let (b, rest) = abort_all-After now l (abort_pending now id m) in
    (
      After-trans b a,
      λ k h. elim (Bool-cases (id == k)) [
        | inl e ↦ After-finished b k (rw (← (==_iff id k).0 e) done_)
        | inr e ↦ rest k (ground arith)
      ],
    )

abort_if_standby-After :
    (now id : ℕ) (m : JobManager)
    → After m (abort_if_standby now id m)
      × (is_standby (m.jobs id).status ≡ true → IsSettled (abort_if_standby now id m) id)
unfolding abort_if_standby
abort_if_standby-After now id m = elim (Bool-cases (is_standby (m.jobs id).status)) [
  | inl st ↦
      let (a, done_) = abort_pending-After now id m in rw (st, abort_if_standby) (a, λ h. done_)
  | inr st ↦ rw (st, abort_if_standby) (After-refl m, λ h. cc)
]

-- A job in standby before is in standby still, or finished.
After-standby :
    {m m' : JobManager}
    → After m m'
    → (k : ℕ) → is_standby (m.jobs k).status ≡ true
    → IsSettled m' k ⊎ (is_standby (m'.jobs k).status ≡ true)
After-standby a k st = elim (a.status_or k) [ inl f ↦ inl f | inr e ↦ inr (rw e st) ]

drop-cons : (l : List ℕ) (n : ℕ) → n < length l → drop n l ≡ get_or l n 0 ∷ drop (suc n) l
drop-cons [] n h = absurd (omega arith)
drop-cons (x ∷ l) zero h = refl
drop-cons (x ∷ l) (suc n) h = drop-cons l n (omega arith)

abort_standby_from-After :
    (left now position : ℕ) (m : JobManager)
    → position + left ≡ length m.history
    → length m.history ≤ m.max_history
    → After m (abort_standby_from left now position m)
      × ((k : ℕ)
          → mem k (drop position m.history) ≡ true
          → is_standby (m.jobs k).status ≡ true
          → IsSettled (abort_standby_from left now position m) k)
unfolding abort_standby_from mem
abort_standby_from-After zero now position m at_end within = (
  After-refl m,
  λ k h st.
      let e = drop_of_length-le position m.history (omega arith) in let gone = ap (mem k) e in cc,
)
abort_standby_from-After (suc left) now position m at_end within =
    let id = get_or (m.history ++ m.spare) position 0 in
    let read = get_or-append_lt m.history m.spare position 0 (omega arith) in
    let (a, done_) = abort_if_standby-After now id m in
    let next = abort_if_standby now id m in
    let same = a.same_history within in
    let (b, rest) =
      abort_standby_from-After left now (suc position) next (rw same (omega arith))
        (After-within a within) in
    (
      After-trans b a,
      λ k h st.
          let split = ap (mem k) (drop-cons m.history position (omega arith)) in
          elim (Bool-cases (get_or m.history position 0 == k)) [
            | inl e ↦
                let here = read ∙ (==_iff (get_or m.history position 0) k).0 e in
                After-finished b k (subst (IsSettled next) here (done_ (rw here st)))
            | inr e ↦ elim (After-standby a k st) [
              | inl f ↦ After-finished b k f
              | inr st' ↦ rest k (rw same (ground (arith, split))) st'
            ]
          ],
    )

-- A shutdown in a state whose history holds no more entries than its bound empties the queue and finishes
-- each job that was in the queue or in standby; the runs under way go on, and each one is cancelled.
pub shutdown-clears :
    (now : ℕ) (m : JobManager)
    → length m.history ≤ m.max_history
    → ((k : ℕ) → is_standby (m.jobs k).status ≡ true → mem k m.history ≡ true)
    → ((shutdown now m).queue ≡ [])
      × ((k : ℕ) → mem k m.queue ≡ true → is_finished ((shutdown now m).jobs k).status ≡ true)
      × ((k : ℕ)
          → is_standby (m.jobs k).status ≡ true
          → is_finished ((shutdown now m).jobs k).status ≡ true)
      × ((shutdown now m).active ≡ m.active)
      × ((k : ℕ) → mem k m.active ≡ true → mem k (shutdown now m).cancelled ≡ true)
unfolding shutdown cancel_active abort_queued_and_standby
shutdown-clears now m within known =
    let emptied : JobManager = record m { is_shutdown = true; queue = [] } in
    let (a, queued) = abort_all-After now m.queue emptied in
    let mid = abort_all now m.queue emptied in
    let (b, waiting) =
      abort_standby_from-After (length mid.history) now 0 mid (omega arith)
        (After-within a within) in
    let both = After-trans b a in
    (
      both.same_queue,
      λ k h. After-finished b k (queued k h),
      λ k st. elim (After-standby a k st) [
        | inl f ↦ After-finished b k f
        | inr st' ↦ waiting k (rw (a.same_history within) (known k st)) st'
      ],
      both.same_active,
      λ k h. unfold mem in rw (mem-append k _ _) (rw both.same_active (rw h refl)),
    )
