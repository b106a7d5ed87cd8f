-- ===== src/Carousel/Weight.antt =====
-- Sums over the modules of a carousel, and how `insert` and `remove` change them.
use mahiron.Base.{
  ℕ, ◌+◌, ◌≤◌, ◌≡◌, subst, [], ◌∷◌, length, ◌==◌, if◌then◌else◌, none, some, arith, Bool-cases, inl,
  inr, ==_iff,
}
use mahiron.Base.Assoc.{Map, lookup, insert, remove, IsMap, remove_absent}
use mahiron.Carousel.{ModuleState}

-- The sum of a weight over the states.
unfoldable pub weight : (ModuleState → ℕ) → Map ModuleState → ℕ
weight w [] = 0
weight w ((id, st) ∷ m) = w st + weight w m

-- What a state takes of either budget.
abbrev pub flight_of : ModuleState → ℕ
flight_of st = if st.completed then 0 else st.info.module_size

abbrev pub payload_of : ModuleState → ℕ
payload_of st = if st.completed then length st.bytes else 0

module _ (w : ModuleState → ℕ) where
  pub weight-insert_new :
      (id : ℕ) (st : ModuleState) (m : Map ModuleState)
      → lookup id m ≡ none
      → weight w (insert id st m) ≡ weight w m + w st
  unfolding weight insert lookup
  weight-insert_new id st [] h = omega arith
  weight-insert_new id st ((j, t) ∷ m) h = ground (arith, weight-insert_new id st m)

  pub weight-insert_over :
      (id : ℕ) (st old : ModuleState) (m : Map ModuleState)
      → lookup id m ≡ some old
      → weight w (insert id st m) + w old ≡ weight w m + w st
  unfolding weight insert lookup
  weight-insert_over id st old [] h = cc
  weight-insert_over id st old ((j, t) ∷ m) h = elim (Bool-cases (j == id)) [
    | inl same ↦ let e : t ≡ old = ground arith in rw same (rw e (omega arith))
    | inr other ↦ rw other (omega (arith, weight-insert_over id st old m (ground arith)))
  ]

  pub weight-remove :
      (id : ℕ) (old : ModuleState) (m : Map ModuleState)
      → IsMap m
      → lookup id m ≡ some old
      → weight w (remove id m) + w old ≡ weight w m
  unfolding weight remove lookup
  weight-remove id old [] u h = cc
  weight-remove id old ((j, t) ∷ m) u h = elim (Bool-cases (j == id)) [
    | inl same ↦
        let e : t ≡ old = ground arith in
        let k : j ≡ id = (==_iff j id).0 same in
        let gone : remove id m ≡ m = remove_absent id m (rw (← k) u.0) in
        rw same (rw (gone, e) (omega arith))
    | inr other ↦ rw other (omega (arith, weight-remove id old m u.1 (ground arith)))
  ]

  pub weight-lookup :
      (id : ℕ) (st : ModuleState) (m : Map ModuleState) → lookup id m ≡ some st → w st ≤ weight w m
  unfolding weight lookup
  weight-lookup id st [] h = cc
  weight-lookup id st ((j, t) ∷ m) h = elim (Bool-cases (j == id)) [
    | inl same ↦ let e : t ≡ st = ground arith in rw (← e) (omega arith)
    | inr other ↦ omega (arith, weight-lookup id st m (ground arith))
  ]

-- A property of every state.
abbrev pub Each : (ModuleState → Type 0) → Map ModuleState → Type 0
Each P [] = Unit
Each P ((id, st) ∷ m) = P st × Each P m

module _ (P : ModuleState → Type 0) where
  pub Each-lookup :
      (id : ℕ) {st : ModuleState} (m : Map ModuleState) → Each P m → lookup id m ≡ some st → P st
  unfolding lookup
  Each-lookup id [] a h = cc
  Each-lookup id {st} ((j, t) ∷ m) a h = elim (Bool-cases (j == id)) [
    | inl same ↦ let e : t ≡ st = ground arith in subst P e a.0
    | inr other ↦ Each-lookup id m a.1 (ground arith)
  ]

  pub Each-insert :
      (id : ℕ) (st : ModuleState) (m : Map ModuleState) → Each P m → P st → Each P (insert id st m)
  unfolding insert
  Each-insert id st [] a p = (p, tt)
  Each-insert id st ((j, t) ∷ m) a p = elim (Bool-cases (j == id)) [
    | inl same ↦ rw same (p, a.1)
    | inr other ↦ rw other (a.0, Each-insert id st m a.1 p)
  ]

  pub Each-remove : (id : ℕ) (m : Map ModuleState) → Each P m → Each P (remove id m)
  unfolding remove
  Each-remove id [] a = tt
  Each-remove id ((j, t) ∷ m) a = elim (Bool-cases (j == id)) [
    | inl same ↦ rw same (Each-remove id m a.1)
    | inr other ↦ rw other (a.0, Each-remove id m a.1)
  ]
