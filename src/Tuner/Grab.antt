-- ===== src/Tuner/Grab.antt =====
-- The device that a request takes over is one of the least important users' tuners.
use mahiron.Base.{
  ℕ, ◌≡◌, ◌⊎◌, refl, sym, subst, false, ◌||◌, List, [], ◌∷◌, All, Option, none, some, arith,
  Bool-cases, Option-cases, inl, inr,
}
use mahiron.Base.Int.{ℤ, ◌≤ℤ◌, ◌<ℤ◌, leb_ℤ}
use mahiron.Tuner.Priority.{IsHighest, effective_priority-IsHighest}
use mahiron.Tuner.{
  TunerRuntime, GrabCandidate, effective_priority, is_better, better_grab_candidate,
}

-- The search of `tryAcquireLocked` over the tuners in use, each with its name.
unfoldable pub candidates :
    Option GrabCandidate → List (ℕ × TunerRuntime) → ℤ → Option GrabCandidate
candidates current [] priority = current
candidates current ((name, r) ∷ rest) priority =
    candidates (better_grab_candidate current name r priority) rest priority

-- A candidate is found, and it is used with at most this priority.
pub record AtMost (bound : ℤ) (found : Option GrabCandidate) : Type 0 where
  pub candidate : GrabCandidate
  pub there : found ≡ some candidate
  pub low : candidate.priority ≤ℤ bound

better-AtMost :
    (bound : ℤ) (g : GrabCandidate) (name : ℕ) (r : TunerRuntime) (priority : ℤ)
    → g.priority ≤ℤ bound
    → AtMost bound (better_grab_candidate (some g) name r priority)
unfolding better_grab_candidate
better-AtMost bound g name r priority low = elim (Option-cases r.device) [
  | inl idle ↦ rw (idle, better_grab_candidate) (record { candidate = g; there = refl; low = low })
  | inr (device, e) ↦
      rw (e, better_grab_candidate)
        (elim (Bool-cases
          (leb_ℤ priority (effective_priority r) || is_better (some g) (effective_priority r))) [
            | inl keep ↦ rw keep (record { candidate = g; there = refl; low = low })
            | inr change ↦
                let lower : effective_priority r ≤ℤ g.priority = unfold is_better in ground arith in
                rw change (record {
                  candidate = record {
                    device = device;
                    tuner_name = name;
                    priority = effective_priority r;
                  };
                  there = refl;
                  low = omega arith;
                })
          ])
]

candidates-AtMost :
    (bound : ℤ) (g : GrabCandidate) (items : List (ℕ × TunerRuntime)) (priority : ℤ)
    → g.priority ≤ℤ bound
    → AtMost bound (candidates (some g) items priority)
unfolding candidates
candidates-AtMost bound g [] priority low = record { candidate = g; there = refl; low = low }
candidates-AtMost bound g ((name, r) ∷ rest) priority low =
    let s = better-AtMost bound g name r priority low in
    subst (λ c. AtMost bound (candidates c rest priority)) (sym s.there)
      (candidates-AtMost bound s.candidate rest priority s.low)

head-AtMost :
    (current : Option GrabCandidate) (name device : ℕ) (r : TunerRuntime) (priority : ℤ)
    → r.device ≡ some device
    → effective_priority r <ℤ priority
    → AtMost (effective_priority r) (better_grab_candidate current name r priority)
unfolding better_grab_candidate is_better effective_priority
head-AtMost none name device r priority e less =
    let open_ : leb_ℤ priority (effective_priority r) ≡ false = ground arith in
    rw (e, better_grab_candidate)
      (rw open_ (record {
        candidate = record { device = device; tuner_name = name; priority = effective_priority r };
        there = refl;
        low = omega arith;
      }))
head-AtMost (some g) name device r priority e less =
    let open_ : leb_ℤ priority (effective_priority r) ≡ false = ground arith in
    rw (e, better_grab_candidate)
      (rw open_ (elim (Bool-cases (leb_ℤ g.priority (effective_priority r))) [
        | inl keep ↦ rw keep (record { candidate = g; there = refl; low = ground arith })
        | inr change ↦ rw change (record {
          candidate = record {
            device = device;
            tuner_name = name;
            priority = effective_priority r;
          };
          there = refl;
          low = omega arith;
        })
      ]))

-- Every tuner with a device whose users all have a lower priority than the request bounds the result.
abbrev pub Bounded : Option GrabCandidate → ℤ → List (ℕ × TunerRuntime) → Type 0
Bounded found priority [] = Unit {0}
Bounded found priority ((name, r) ∷ rest) =
    ((device : ℕ)
      → r.device ≡ some device
      → effective_priority r <ℤ priority
      → AtMost (effective_priority r) found)
    × Bounded found priority rest

candidates-Bounded :
    (current : Option GrabCandidate) (items : List (ℕ × TunerRuntime)) (priority : ℤ)
    → Bounded (candidates current items priority) priority items
unfolding candidates
candidates-Bounded current [] priority = tt
candidates-Bounded current ((name, r) ∷ rest) priority = (
  λ device e less.
      let s = head-AtMost current name device r priority e less in
      subst (λ c. AtMost (effective_priority r) (candidates c rest priority)) (sym s.there)
        (candidates-AtMost (effective_priority r) s.candidate rest priority s.low),
  candidates-Bounded (better_grab_candidate current name r priority) rest priority,
)

-- The candidate is the device of this tuner, which is used with a lower priority than the request's.
pub record IsOffer (name : ℕ) (r : TunerRuntime) (priority : ℤ) (g : GrabCandidate) : Type 0 where
  pub named : g.tuner_name ≡ name
  pub device : r.device ≡ some g.device
  pub used_with : g.priority ≡ effective_priority r
  pub less : effective_priority r <ℤ priority

abbrev pub Offered : ℤ → GrabCandidate → List (ℕ × TunerRuntime) → Type 0
Offered priority g [] = ⊥
Offered priority g ((name, r) ∷ rest) = IsOffer name r priority g ⊎ Offered priority g rest

better-IsOffer :
    (current : Option GrabCandidate) (name : ℕ) (r : TunerRuntime) (priority : ℤ)
    (g : GrabCandidate)
    → better_grab_candidate current name r priority ≡ some g
    → (current ≡ some g) ⊎ IsOffer name r priority g
unfolding better_grab_candidate
better-IsOffer current name r priority g e = elim (Option-cases r.device) [
  | inl idle ↦ inl (ground (arith, idle))
  | inr (device, q) ↦
      elim (Bool-cases
        (leb_ℤ priority (effective_priority r) || is_better current (effective_priority r))) [
          | inl keep ↦ inl (ground (arith, q, keep))
          | inr change ↦
              let offer : GrabCandidate = record {
                device = device;
                tuner_name = name;
                priority = effective_priority r;
              } in
              let same : offer ≡ g = ground (arith, q, change) in
              inr (
                subst (IsOffer name r priority) same
                  (record { named = refl; device = q; used_with = refl; less = ground arith }))
        ]
]

candidates-Offered :
    (current : Option GrabCandidate) (items : List (ℕ × TunerRuntime)) (priority : ℤ)
    (g : GrabCandidate)
    → candidates current items priority ≡ some g
    → (current ≡ some g) ⊎ Offered priority g items
unfolding candidates
candidates-Offered current [] priority g e = inl e
candidates-Offered current ((name, r) ∷ rest) priority g e =
    elim (candidates-Offered (better_grab_candidate current name r priority) rest priority g e) [
      | inr later ↦ inr (inr later)
      | inl now ↦ elim (better-IsOffer current name r priority g now) [
        | inl before ↦ inl before
        | inr offer ↦ inr (inl offer)
      ]
    ]

effective_priorities-IsHighest :
    (items : List (ℕ × TunerRuntime)) → All (λ e. IsHighest e.1 (effective_priority e.1)) items
effective_priorities-IsHighest [] = tt
effective_priorities-IsHighest ((name, r) ∷ rest) =
    (effective_priority-IsHighest r, effective_priorities-IsHighest rest)

-- The best device to take over: it is offered by a tuner, and where a tuner has a device to offer there is
-- one, of no higher priority than that tuner's; a tuner's is the highest of its reservation and its users.
pub record Best (items : List (ℕ × TunerRuntime)) (priority : ℤ) (found : Option GrabCandidate)
    : Type 0 where
  pub offered : (g : GrabCandidate) → found ≡ some g → Offered priority g items
  pub lowest : Bounded found priority items
  pub effective : All (λ e. IsHighest e.1 (effective_priority e.1)) items

-- The search over tuners in use finds a device to take over exactly if one of them has a device of a
-- lower effective priority than the request's. What it finds is such a tuner's name, device and effective
-- priority, and no such tuner has a lower effective priority. That is the highest of the priorities of
-- the reservation and of the users, which may be negative.
pub candidates-Best :
    (items : List (ℕ × TunerRuntime)) (priority : ℤ)
    → Best items priority (candidates none items priority)
candidates-Best items priority = record {
  offered = λ g e. elim (candidates-Offered none items priority g e) [
    | inl nothing ↦ cc
    | inr offer ↦ offer
  ];
  lowest = candidates-Bounded none items priority;
  effective = effective_priorities-IsHighest items;
}
