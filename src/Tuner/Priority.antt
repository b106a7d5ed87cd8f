-- ===== src/Tuner/Priority.antt =====
-- The effective priority of a tuner is the highest of its reservation's and its users'.
use mahiron.Base.{
  ℕ, ◌≡◌, ◌⊎◌, inl, inr, refl, subst, [], ◌∷◌, All, if◌then◌else◌, arith, Bool-cases,
}
use mahiron.Base.Int.{ℤ, ◌≤ℤ◌, ltb_ℤ}
use mahiron.Base.Assoc.{Map}
use mahiron.Tuner.{TrackedUser, TunerRuntime, highest, effective_priority}

abbrev pub Below : ℤ → Map TrackedUser → Type 0
Below p = All (λ e. e.1.user.priority ≤ℤ p)

-- Some user has this priority.
abbrev pub Used : ℤ → Map TrackedUser → Type 0
Used p [] = ⊥
Used p ((id, tracked) ∷ m) = (p ≡ tracked.user.priority) ⊎ Used p m

-- The highest priority is no lower than any, and is one of them.
pub record IsHighest (r : TunerRuntime) (p : ℤ) : Type 0 where
  pub reservation : r.reservation_priority ≤ℤ p
  pub users : Below p r.users
  pub reached : (p ≡ r.reservation_priority) ⊎ Used p r.users

abbrev Bounds : ℤ → Map TrackedUser → ℤ → Type 0
Bounds b m p = (b ≤ℤ p) × Below p m × ((p ≡ b) ⊎ Used p m)

-- One more user in front.
Bounds-user :
    (b p : ℤ) (id : ℕ) (tracked : TrackedUser) (m : Map TrackedUser)
    → Bounds (if ltb_ℤ b tracked.user.priority then tracked.user.priority else b) m p
    → Bounds b ((id, tracked) ∷ m) p
Bounds-user b p id tracked m h =
    let u = tracked.user.priority in
    elim (Bool-cases (ltb_ℤ b u)) [
      | inl more ↦
          let (low, below, reached) : Bounds u m p =
            subst (λ t. Bounds (if t then u else b) m p) more h in
          (ground arith, (low, below), inr reached)
      | inr kept ↦
          let (low, below, reached) : Bounds b m p =
            subst (λ t. Bounds (if t then u else b) m p) kept h in
          (low, (ground arith, below), elim reached [ inl e ↦ inl e | inr used ↦ inr (inr used) ])
    ]

highest-Bounds : (b : ℤ) (m : Map TrackedUser) → Bounds b m (highest b m)
unfolding highest
highest-Bounds b [] = (omega arith, tt, inl refl)
highest-Bounds b ((id, tracked) ∷ m) =
    let u = tracked.user.priority in
    Bounds-user b (highest (if ltb_ℤ b u then u else b) m) id tracked m
      (highest-Bounds (if ltb_ℤ b u then u else b) m)

pub effective_priority-IsHighest : (r : TunerRuntime) → IsHighest r (effective_priority r)
unfolding effective_priority
effective_priority-IsHighest r =
    let (low, below, reached) = highest-Bounds r.reservation_priority r.users in
    record { reservation = low; users = below; reached = reached }
