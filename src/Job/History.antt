-- ===== src/Job/History.antt =====
-- The history of the jobs: its bound, what it keeps, and the listing of the keys under way.
use mahiron.Base.{
  ℕ, zero, suc, ◌-◌, ◌<◌, ◌≤◌, ◌≡◌, refl, sym, ap, ◌∙◌, ltb, if◌then◌else◌, Bool, true, false, ◌||◌,
  not, List, [], ◌∷◌, length, ◌==◌, arith, Bool-cases, Option-cases, inl, inr, none, some, ==_iff,
}
use mahiron.Base.Members.{mem, IsUnique}
use mahiron.Job.{Job, JobManager, is_finished, drop_finished, trim_round, trim_from, trim_history}
use mahiron.Job.Calls.{active_keys_from, get_active_job_keys_by_prefix}
use mahiron.Job.Locked.{trim_from-Forgets}

drop_finished-length :
    (jobs : ℕ → Job) (l short : List ℕ)
    → drop_finished jobs l ≡ some short
    → suc (length short) ≡ length l
unfolding drop_finished
drop_finished-length jobs [] short e = cc
drop_finished-length jobs (id ∷ rest) short e = elim (Option-cases (drop_finished jobs rest)) [
  | inl n ↦ ground (arith, n)
  | inr (r, q) ↦ ground (arith, q, drop_finished-length jobs rest r q)
]

drop_finished-eq_none :
    (jobs : ℕ → Job) (l : List ℕ) (k : ℕ)
    → drop_finished jobs l ≡ none
    → mem k l ≡ true
    → is_finished (jobs k).status ≡ false
unfolding drop_finished mem
drop_finished-eq_none jobs [] k e h = cc
drop_finished-eq_none jobs (id ∷ rest) k e h = elim (Option-cases (drop_finished jobs rest)) [
  | inl n ↦ ground (arith, n, drop_finished-eq_none jobs rest k n)
  | inr (r, q) ↦ ground (arith, q)
]

-- The history is within its bound, or nothing in it is finished.
abbrev Trimmed : (ℕ → Job) → ℕ → List ℕ → Type 0
Trimmed jobs bound l =
    (k : ℕ) → bound < length l → mem k l ≡ true → is_finished (jobs k).status ≡ false

trim_round-Trimmed :
    (jobs : ℕ → Job) (bound : ℕ) (l spare : List ℕ)
    → trim_round jobs bound l spare ≡ none
    → Trimmed jobs bound l
unfolding trim_round
trim_round-Trimmed jobs bound l spare e k over h = elim (Option-cases (drop_finished jobs l)) [
  | inl n ↦ drop_finished-eq_none jobs l k n h
  | inr (r, q) ↦ ground (arith, q)
]

trim_round-length :
    (jobs : ℕ → Job) (bound : ℕ) (l spare short behind : List ℕ)
    → trim_round jobs bound l spare ≡ some (short, behind)
    → suc (length short) ≡ length l
unfolding trim_round
trim_round-length jobs bound l spare short behind e = elim (Option-cases (drop_finished jobs l)) [
  | inl n ↦ ground (arith, n)
  | inr (r, q) ↦ ground (arith, q, drop_finished-length jobs l r q)
]

trim_from-Trimmed :
    (fuel : ℕ) (jobs : ℕ → Job) (bound : ℕ) (l spare : List ℕ)
    → length l ≤ fuel
    → Trimmed jobs bound (trim_from fuel jobs bound l spare).0
unfolding trim_from
trim_from-Trimmed zero jobs bound l spare enough = λ k over h. absurd (omega arith)
trim_from-Trimmed (suc fuel) jobs bound l spare enough =
    elim (Option-cases (trim_round jobs bound l spare)) [
      | inl n ↦ rw (n, trim_from) (trim_round-Trimmed jobs bound l spare n)
      | inr ((short, behind), q) ↦
          let shorter = trim_round-length jobs bound l spare short behind q in
          rw (q, trim_from) (trim_from-Trimmed fuel jobs bound short behind (omega arith))
    ]

-- A list without its first finished jobs, as many as the number says.
unfoldable pub without_oldest : (ℕ → Job) → ℕ → List ℕ → List ℕ
without_oldest jobs zero l = l
without_oldest jobs (suc n) [] = []
without_oldest jobs (suc n) (id ∷ rest) =
    let fewer = without_oldest jobs n rest in
    let later = without_oldest jobs (suc n) rest in
    if is_finished (jobs id).status then fewer else id ∷ later

without_oldest-drop_finished :
    (jobs : ℕ → Job) (n : ℕ) (l short : List ℕ)
    → drop_finished jobs l ≡ some short
    → without_oldest jobs n short ≡ without_oldest jobs (suc n) l
unfolding drop_finished without_oldest
without_oldest-drop_finished jobs n [] short e = cc
without_oldest-drop_finished jobs n (id ∷ rest) short e =
    elim (Bool-cases (is_finished (jobs id).status)) [
      | inl done ↦
          let same : rest ≡ short = ground (arith, done) in
          rw done (ap (without_oldest jobs n) (sym same))
      | inr waits ↦ elim (Option-cases (drop_finished jobs rest)) [
        | inl none_left ↦ ground (arith, waits, none_left)
        | inr (r, q) ↦
            let same : id ∷ r ≡ short = ground (arith, waits, q) in
            let later = without_oldest-drop_finished jobs n rest r q in
            rw waits
              (ap (without_oldest jobs n) (sym same) ∙ front n id r waits ∙ ap (λ t. id ∷ t) later)
      ]
    ]
  where
    front :
        (n id : ℕ) (r : List ℕ)
        → is_finished (jobs id).status ≡ false
        → without_oldest jobs n (id ∷ r) ≡ id ∷ without_oldest jobs n r
    front zero id r w = refl
    front (suc n) id r w = rw w refl

without_oldest-none :
    (jobs : ℕ → Job) (n : ℕ) (l : List ℕ)
    → drop_finished jobs l ≡ none
    → without_oldest jobs n l ≡ l
unfolding drop_finished without_oldest
without_oldest-none jobs zero l e = refl
without_oldest-none jobs (suc n) [] e = refl
without_oldest-none jobs (suc n) (id ∷ rest) e = elim (Option-cases (drop_finished jobs rest)) [
  | inl q ↦ ground (arith, q, without_oldest-none jobs (suc n) rest q)
  | inr (r, q) ↦ ground (arith, q)
]

trim_from-eq :
    (fuel : ℕ) (jobs : ℕ → Job) (bound : ℕ) (l spare : List ℕ)
    → length l ≤ fuel
    → (trim_from fuel jobs bound l spare).0 ≡ without_oldest jobs (length l - bound) l
unfolding trim_from trim_round
trim_from-eq zero jobs bound [] spare enough =
    let none_over : 0 - bound ≡ 0 = omega arith in rw none_over (unfold without_oldest in refl)
trim_from-eq zero jobs bound (x ∷ l) spare enough = absurd (omega arith)
trim_from-eq (suc fuel) jobs bound l spare enough = elim (Bool-cases (ltb bound (length l))) [
  | inr within ↦
      let zero_more : length l - bound ≡ 0 = ground arith in
      rw (within, trim_from, trim_round) (rw zero_more (unfold without_oldest in refl))
  | inl over ↦ elim (Option-cases (drop_finished jobs l)) [
    | inl n ↦
        rw (over, trim_from, trim_round)
          (rw n (sym (without_oldest-none jobs (length l - bound) l n)))
    | inr (short, q) ↦
        let shorter = drop_finished-length jobs l short q in
        let more : suc (length short - bound) ≡ length l - bound = ground arith in
        rw (over, trim_from, trim_round)
          (rw q (
            trim_from-eq fuel jobs bound short _ (omega arith)
            ∙ without_oldest-drop_finished jobs (length short - bound) l short q
            ∙ ap (λ n. without_oldest jobs n l) more))
  ]
]

-- Trimming removes the oldest finished jobs of the history, as many as it holds above its bound or, if
-- there are fewer, all of them, and nothing else: it loses no unfinished job and adds none, and it goes on
-- until the history is within its bound or nothing in it is finished.
pub trim_history-bound :
    (m : JobManager)
    → ((trim_history m).history
        ≡ without_oldest m.jobs (length m.history - m.max_history) m.history)
      × ((k : ℕ)
          → (mem k (trim_history m).history ≡ true → mem k m.history ≡ true)
            × (mem k m.history ≡ true
                → is_finished (m.jobs k).status ≡ false
                → mem k (trim_history m).history ≡ true)
            × (m.max_history < length (trim_history m).history
                → mem k (trim_history m).history ≡ true
                → is_finished (m.jobs k).status ≡ false))
unfolding trim_history
trim_history-bound m = (
  trim_from-eq (length m.history) m.jobs m.max_history m.history m.spare (omega arith),
  λ k.
      let f = trim_from-Forgets (length m.history) m.jobs m.max_history m.history m.spare k in
      (
        f.0,
        f.1,
        trim_from-Trimmed (length m.history) m.jobs m.max_history m.history m.spare (omega arith) k,
      ),
)

-- A job of the list that the listing reports.
pub record Shown (has_prefix : ℕ → Bool) (jobs : ℕ → Job) (l : List ℕ) (key : ℕ) : Type 0 where
  pub id : ℕ
  pub known : mem id l ≡ true
  pub unfinished : is_finished (jobs id).status ≡ false
  pub fits : has_prefix key ≡ true
  pub same : (jobs id).key ≡ key

Shown-later :
    {has_prefix : ℕ → Bool} {jobs : ℕ → Job} {l : List ℕ} {key : ℕ} (x : ℕ)
    → Shown has_prefix jobs l key
    → Shown has_prefix jobs (x ∷ l) key
unfolding mem
Shown-later x s = record {
  id = s.id;
  known = ground (arith, s.known);
  unfinished = s.unfinished;
  fits = s.fits;
  same = s.same;
}

-- The entry is passed over: its job is finished, has another prefix, or its key was reported.
abbrev passed : (ℕ → Bool) → (ℕ → Job) → List ℕ → ℕ → Bool
passed has_prefix jobs seen x =
    is_finished (jobs x).status || (not (has_prefix (jobs x).key) || mem (jobs x).key seen)

module _ (has_prefix : ℕ → Bool) (jobs : ℕ → Job) where
  active_keys_from-Shown :
      (seen l : List ℕ) (key : ℕ)
      → mem key (active_keys_from has_prefix jobs seen l) ≡ true
      → Shown has_prefix jobs l key × (mem key seen ≡ false)
  unfolding active_keys_from mem
  active_keys_from-Shown seen [] key h = cc
  active_keys_from-Shown seen (x ∷ l) key h = elim (Bool-cases (passed has_prefix jobs seen x)) [
    | inl e ↦
        let (s, n) = active_keys_from-Shown seen l key (ground (arith, e)) in (Shown-later x s, n)
    | inr e ↦ elim (Bool-cases ((jobs x).key == key)) [
      | inl same ↦
          let same' = (==_iff (jobs x).key key).0 same in
          (
            record {
              id = x;
              known = ground arith;
              unfinished = ground arith;
              fits = rw (← same') (ground arith);
              same = same';
            },
            rw (← same') (ground arith),
          )
      | inr other ↦
          let (s, n) = active_keys_from-Shown ((jobs x).key ∷ seen) l key (ground (arith, e)) in
          (Shown-later x s, ground arith)
    ]
  ]

  active_keys_from-shows :
      (seen l : List ℕ) (id : ℕ)
      → mem id l ≡ true
      → is_finished (jobs id).status ≡ false
      → has_prefix (jobs id).key ≡ true
      → mem (jobs id).key seen ≡ false
      → mem (jobs id).key (active_keys_from has_prefix jobs seen l) ≡ true
  unfolding active_keys_from mem
  active_keys_from-shows seen [] id h u p n = cc
  active_keys_from-shows seen (x ∷ l) id h u p n = ground (
    arith,
    ==_iff x id,
    active_keys_from-shows seen l id,
    active_keys_from-shows ((jobs x).key ∷ seen) l id,
  )

  active_keys_from-IsUnique : (seen l : List ℕ) → IsUnique (active_keys_from has_prefix jobs seen l)
  unfolding active_keys_from mem
  active_keys_from-IsUnique seen [] = tt
  active_keys_from-IsUnique seen (x ∷ l) = elim (Bool-cases (passed has_prefix jobs seen x)) [
    | inl e ↦ rw (e, active_keys_from) (active_keys_from-IsUnique seen l)
    | inr e ↦
        let key = (jobs x).key in
        let others = active_keys_from has_prefix jobs (key ∷ seen) l in
        rw (e, active_keys_from)
          (
            elim (Bool-cases (mem key others)) [
              | inl h ↦ ground (arith, (active_keys_from-Shown (key ∷ seen) l key h).1)
              | inr h ↦ h
            ],
            active_keys_from-IsUnique (key ∷ seen) l,
          )
  ]

-- The listing reports a key exactly if an unfinished job of the history has the key and the key has the
-- prefix, and it reports no key twice.
pub get_active_job_keys_by_prefix_lem :
    (has_prefix : ℕ → Bool) (m : JobManager)
    → ((key : ℕ)
        → mem key (get_active_job_keys_by_prefix has_prefix m) ≡ true
        → Shown has_prefix m.jobs m.history key)
      × ((id : ℕ)
          → mem id m.history ≡ true
          → is_finished (m.jobs id).status ≡ false
          → has_prefix (m.jobs id).key ≡ true
          → mem (m.jobs id).key (get_active_job_keys_by_prefix has_prefix m) ≡ true)
      × IsUnique (get_active_job_keys_by_prefix has_prefix m)
unfolding get_active_job_keys_by_prefix mem
get_active_job_keys_by_prefix_lem has_prefix m = (
  λ key h. (active_keys_from-Shown has_prefix m.jobs [] m.history key h).0,
  λ id h u p. active_keys_from-shows has_prefix m.jobs [] m.history id h u p refl,
  active_keys_from-IsUnique has_prefix m.jobs [] m.history,
)
