-- ===== src/Tuner/Manager/Search.antt =====
-- What the search over the tuners finds: the first free one behind the last that was taken.
use mahiron.Base.{
  ℕ, zero, suc, ◌+◌, ◌-◌, ◌%◌, ◌<◌, ◌≤◌, ◌≡◌, refl, sym, ap, ◌∙◌, subst, true, false, List, [], ◌∷◌,
  length, ◌==◌, if◌then◌else◌, Option, none, some, arith, Bool-cases, Option-cases, inl, inr,
  get_elem?, ==_iff,
}
use native.Mathlib.Nat.{mod-add-mod, add-mod-mod, add-mod_right, mod-eq_of_lt, mod-lt}
use mahiron.Tuner.{TunerConfig, GrabCandidate, better_grab_candidate}
use mahiron.Tuner.Grab.{candidates, Best, candidates-Best}
use mahiron.Tuner.Manager.{
  TunerManager, Request, AcquireAttempt, visit, search, no_attempt, try_acquire_locked,
}
use mahiron.Tuner.Manager.Visit.{
  fits, is_busy, is_free, busy_from, taken, managed, visit-taken, visit-Passed,
}

-- How a search of some rounds from an offset ends: the first free tuner is taken, or there is none, nothing
-- changes, and the best device to take over is the best of the busy tuners.
pub data Searched (request : Request) (start first rounds : ℕ) (grab : Option GrabCandidate)
    (tm : TunerManager) : AcquireAttempt × TunerManager → Type 0 where
  acquired :
      (offset : ℕ) (a : AcquireAttempt)
      → first ≤ offset
      → offset < first + rounds
      → is_free request tm ((start + offset) % length tm.tuners) ≡ true
      → ((j : ℕ)
          → first ≤ j
          → j < offset
          → is_free request tm ((start + j) % length tm.tuners) ≡ false)
      → a.device ≡ some (managed ((start + offset) % length tm.tuners) tm)
      → Searched request start first rounds grab tm
          (a, taken request ((start + offset) % length tm.tuners) tm)
  nothing :
      (a : AcquireAttempt)
      → ((j : ℕ)
          → first ≤ j
          → j < first + rounds
          → is_free request tm ((start + j) % length tm.tuners) ≡ false)
      → a.device ≡ none
      → a.grab ≡ candidates grab (busy_from rounds start first request tm) request.priority
      → Searched request start first rounds grab tm (a, tm)

-- One round more in front, at a tuner that is not free.
Searched-later :
    (request : Request) (start first rounds : ℕ) (grab grab' : Option GrabCandidate)
    (tm : TunerManager) {r : AcquireAttempt × TunerManager}
    → is_free request tm ((start + first) % length tm.tuners) ≡ false
    → candidates grab' (busy_from rounds start (suc first) request tm) request.priority
      ≡ candidates grab (busy_from (suc rounds) start first request tm) request.priority
    → Searched request start (suc first) rounds grab' tm r
    → Searched request start first (suc rounds) grab tm r
Searched-later request start first rounds grab grab' tm closed same
      (acquired offset a low high open_ before device) =
    acquired offset a (omega arith) (omega arith) open_
      (λ j h k. elim (Bool-cases (first == j)) [
        | inl e ↦
            subst (λ i. is_free request tm ((start + i) % length tm.tuners) ≡ false)
              ((==_iff first j).0 e) closed
        | inr e ↦ before j (ground arith) k
      ])
      device
Searched-later request start first rounds grab grab' tm closed same (nothing a before device g) =
    nothing a
      (λ j h k. elim (Bool-cases (first == j)) [
        | inl e ↦
            subst (λ i. is_free request tm ((start + i) % length tm.tuners) ≡ false)
              ((==_iff first j).0 e) closed
        | inr e ↦ before j (ground arith) (omega arith)
      ])
      device (g ∙ same)

busy_from-step :
    (rounds start first : ℕ) (request : Request) (item : TunerConfig)
    (grab grab' : Option GrabCandidate) (tm : TunerManager)
    → get_elem? tm.tuners ((start + first) % length tm.tuners) ≡ some item
    → grab' ≡ (
        if is_busy request ((start + first) % length tm.tuners) item tm
        then better_grab_candidate grab item.name
            (tm.runtime ((start + first) % length tm.tuners))
            request.priority
        else grab)
    → candidates grab' (busy_from rounds start (suc first) request tm) request.priority
      ≡ candidates grab (busy_from (suc rounds) start first request tm) request.priority
unfolding busy_from candidates
busy_from-step rounds start first request item grab grab' tm found e =
    elim (Bool-cases (is_busy request ((start + first) % length tm.tuners) item tm)) [
      | inl busy ↦ rw (found, busy_from) (rw (e, busy) refl)
      | inr other ↦ rw (found, busy_from) (rw (e, other) refl)
    ]

none_le {ℓ} : {A : Type ℓ} (xs : List A) (i : ℕ) → get_elem? xs i ≡ none → length xs ≤ i
none_le [] i h = omega arith
none_le (x ∷ xs) zero h = cc
none_le (x ∷ xs) (suc i) h = let r = none_le xs i h in omega arith

search-Searched :
    (rounds start first : ℕ) (request : Request) (a : AcquireAttempt) (tm : TunerManager)
    → rounds ≤ length tm.tuners
    → a.device ≡ none
    → Searched request start first rounds a.grab tm (search rounds start first request a tm)
unfolding search candidates busy_from is_free
search-Searched zero start first request a tm l h = nothing a (λ j p q. absurd (omega arith)) h refl
search-Searched (suc rounds) start first request a tm l h =
    let index : ℕ = (start + first) % length tm.tuners in
    elim (Option-cases (get_elem? tm.tuners index)) [
      | inl absent ↦
          let out = none_le tm.tuners index absent in
          let inside : index < length tm.tuners = mod-lt (start + first) (omega arith) in
          absurd (omega arith)
      | inr (item, found) ↦ elim (Bool-cases (fits request index item tm)) [
        | inl free ↦
            let v = visit-taken request index item a tm free in
            rw (found, search)
              (rw v (
                rw v (
                  acquired first
                    (record a {
                      found = true;
                      usable_found = true;
                      device = some (managed index tm);
                    })
                    (omega arith) (omega arith) (rw (found, is_free) free)
                    (λ j p q. absurd (omega arith)) refl)))
        | inr closed ↦
            let v = visit-Passed request index item a tm closed in
            let open_ = v.no_device ∙ h in
            let r = visit request index item a tm in
            rw (found, search)
              (rw (open_) (
                Searched-later request start first rounds a.grab r.0.grab tm
                  (rw (found, is_free) closed)
                  (busy_from-step rounds start first request item a.grab r.0.grab tm found
                    v.grabbed)
                  (subst
                    (λ m.
                      Searched request start (suc first) rounds r.0.grab tm
                        (search rounds start (suc first) request r.0 m))
                    (sym v.same)
                    (search-Searched rounds start (suc first) request r.0 tm (omega arith) open_))))
      ]
    ]

-- Every tuner is met: from any start the rounds go through all indices.
round_robin : (start n i : ℕ) → i < n → (offset : ℕ) × (offset < n) × ((start + offset) % n ≡ i)
round_robin start n i h =
    let rest : ℕ = i + (n - start % n) in
    let small : start % n < n = mod-lt start (omega arith) in
    let sum : start % n + rest ≡ i + n = omega arith in
    (
      rest % n,
      mod-lt rest (omega arith),
      add-mod-mod start rest n
          ∙ sym (mod-add-mod start n rest)
          ∙ ap (λ x. x % n) sum
          ∙ add-mod_right i n
          ∙ mod-eq_of_lt h,
    )

-- How `tryAcquireLocked` ends.
pub data Outcome (request : Request) (tm : TunerManager)
    : AcquireAttempt × TunerManager → Type 0 where
  acquired_first :
      (offset : ℕ) (a : AcquireAttempt)
      → offset < length tm.tuners
      → is_free request tm ((tm.next_by_type request.channel_type + offset) % length tm.tuners)
        ≡ true
      → ((j : ℕ)
          → j < offset
          → is_free request tm ((tm.next_by_type request.channel_type + j) % length tm.tuners)
            ≡ false)
      → a.device
        ≡ some (managed ((tm.next_by_type request.channel_type + offset) % length tm.tuners) tm)
      → Outcome request tm
          (a, taken request ((tm.next_by_type request.channel_type + offset) % length tm.tuners) tm)
  none_free :
      (a : AcquireAttempt)
      → ((index : ℕ) → index < length tm.tuners → is_free request tm index ≡ false)
      → a.device ≡ none
      → Best
          (busy_from (length tm.tuners) (tm.next_by_type request.channel_type) 0 request tm)
          request.priority
          a.grab
      → Outcome request tm (a, tm)

Searched-Outcome :
    (request : Request) (tm : TunerManager) {r : AcquireAttempt × TunerManager}
    → Searched request (tm.next_by_type request.channel_type) 0 (length tm.tuners) none tm r
    → Outcome request tm r
Searched-Outcome request tm (acquired offset a low high open_ before device) =
    acquired_first offset a (omega arith) open_ (λ j h. before j (omega arith) h) device
Searched-Outcome request tm (nothing a before device grab) =
    none_free a
      (λ index h.
        let (offset, o, e) =
          round_robin (tm.next_by_type request.channel_type) (length tm.tuners) index h in
        subst (λ i. is_free request tm i ≡ false) e (before offset (omega arith) (omega arith)))
      device
      (subst
        (Best (busy_from (length tm.tuners) (tm.next_by_type request.channel_type) 0 request tm)
          request.priority)
        (sym grab)
        (candidates-Best
          (busy_from (length tm.tuners) (tm.next_by_type request.channel_type) 0 request tm)
          request.priority))

-- The search takes the first tuner, from the one where the last search for the type stopped, that is
-- enabled, receives the type, has a source, and has neither a fault nor a user; the next search starts
-- behind it, and no other tuner changes. If no tuner is so, nothing changes, and a device to take over is
-- named exactly if a tuner that is only in use has one of a lower effective priority than the request's:
-- it is such a tuner's, and no such tuner has a lower effective priority.
pub try_acquire_locked-Outcome :
    (request : Request) (tm : TunerManager) → Outcome request tm (try_acquire_locked request tm)
unfolding try_acquire_locked no_attempt
try_acquire_locked-Outcome request tm = Searched-Outcome request tm (
    search-Searched (length tm.tuners) (tm.next_by_type request.channel_type) 0 request no_attempt
      tm (omega arith) refl)
