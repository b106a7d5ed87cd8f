-- ===== src/Carousel/Eviction.antt =====
-- Eviction: it keeps the books, ends, and stops only where the budget is met or no candidate is left.
use mahiron.Base.{
  ℕ, zero, suc, ◌≤◌, ◌<◌, ◌≡◌, ◌⊎◌, refl, sym, ap, ◌∙◌, subst, Bool, true, false, [], ◌∷◌, length,
  ◌==◌, if◌then◌else◌, Option, none, some, arith, Bool-cases, Option-cases, inl, inr, ==_refl,
  ==_iff,
}
use mahiron.Base.Assoc.{
  Map, lookup, remove, has, IsMap, lookup-eq_none, remove_absent, has-eq_false,
}
use mahiron.Carousel.{
  ModuleState, Carousel, forget, remove_module, older, oldest, evict_oldest, evict_while,
}
use mahiron.Carousel.Budget.{
  IsBalanced, Shrinks, Shrinks-trans, Shrinks-refl, remove_module-IsBalanced,
}

module _ (fits : ℕ → ModuleState → Bool) where
  -- No state of the map is a candidate.
  abbrev pub NoCandidate : Map ModuleState → Type 0
  NoCandidate [] = Unit {0}
  NoCandidate ((id, st) ∷ m) = (fits id st ≡ false) × NoCandidate m

  -- Every candidate is at least this old.
  abbrev pub NoneOlder : ℕ → Map ModuleState → Type 0
  NoneOlder generation [] = Unit {0}
  NoneOlder generation ((id, st) ∷ m) =
      (fits id st ≡ true → generation ≤ st.generation) × NoneOlder generation m

  -- A pair names a candidate of the map with its generation.
  pub record IsCandidate (m : Map ModuleState) (id generation : ℕ) : Type 0 where
    pub state : ModuleState
    pub there : lookup id m ≡ some state
    pub fitting : fits id state ≡ true
    pub aged : state.generation ≡ generation

  -- The search's best pair behind one state.
  abbrev next : Option (ℕ × ℕ) → ℕ → ModuleState → Option (ℕ × ℕ)
  next best id st = if fits id st then older best id st else best

  next_cases :
      (best : Option (ℕ × ℕ)) (id : ℕ) (st : ModuleState)
      → ((next best id st ≡ some (id, st.generation)) × (fits id st ≡ true))
        ⊎ (next best id st ≡ best)
  unfolding older
  next_cases none id st = ground arith
  next_cases (some (k, g)) id st = ground arith

  behind :
      (j : ℕ) (t : ModuleState) (m : Map ModuleState) (id generation : ℕ)
      → has j m ≡ false
      → IsCandidate m id generation
      → IsCandidate ((j, t) ∷ m) id generation
  unfolding lookup
  behind j t m id generation u c = elim (Bool-cases (j == id)) [
    | inl same ↦
        let e : j ≡ id = (==_iff j id).0 same in
        let gone : lookup j m ≡ none = lookup-eq_none j m u in
        let there : lookup j m ≡ some c.state =
          subst (λ k. lookup k m ≡ some c.state) (sym e) c.there in
        cc (gone, there)
    | inr other ↦ record {
      state = c.state;
      there = rw other c.there;
      fitting = c.fitting;
      aged = c.aged;
    }
  ]

  oldest-IsCandidate :
      (m : Map ModuleState) (best : Option (ℕ × ℕ)) (id generation : ℕ)
      → IsMap m
      → oldest fits best m ≡ some (id, generation)
      → (best ≡ some (id, generation)) ⊎ IsCandidate m id generation
  unfolding oldest
  oldest-IsCandidate [] best id generation u e = inl e
  oldest-IsCandidate ((j, st) ∷ m) best id generation u e =
      elim (oldest-IsCandidate m (next best j st) id generation u.1 e) [
        | inl now ↦ elim (next_cases best j st) [
          | inl (taken, yes_) ↦ inr (here j st m id generation (sym taken ∙ now) yes_)
          | inr kept ↦ inl (sym kept ∙ now)
        ]
        | inr later ↦ inr (behind j st m id generation u.0 later)
      ]
    where
      here :
          (j : ℕ) (st : ModuleState) (m : Map ModuleState) (id generation : ℕ)
          → ◌≡◌ {A = Option (ℕ × ℕ)} (some (j, st.generation)) (some (id, generation))
          → fits j st ≡ true
          → IsCandidate ((j, st) ∷ m) id generation
      here j st m id generation e y =
          let k : j ≡ id = cc in
          let g : st.generation ≡ generation = cc in
          record {
            state = st;
            there = unfold lookup in (rw k (rw (==_refl id) refl));
            fitting = subst (λ i. fits i st ≡ true) k y;
            aged = g;
          }

  -- With a pair at hand the search finds one.
  oldest-some : (m : Map ModuleState) (best : ℕ × ℕ) → oldest fits (some best) m ≡ none → ⊥
  unfolding oldest older
  oldest-some [] best e = cc
  oldest-some ((j, st) ∷ m) best e = elim (next_cases (some best) j st) [
    | inl (taken, _) ↦ oldest-some m (j, st.generation) (ap (λ b. oldest fits b m) (sym taken) ∙ e)
    | inr kept ↦ oldest-some m best (ap (λ b. oldest fits b m) (sym kept) ∙ e)
  ]

  pub oldest-NoCandidate : (m : Map ModuleState) → oldest fits none m ≡ none → NoCandidate m
  unfolding oldest older
  oldest-NoCandidate [] e = tt
  oldest-NoCandidate ((j, st) ∷ m) e = elim (Bool-cases (fits j st)) [
    | inl yes_ ↦ absurd (
        oldest-some m (j, st.generation)
          (ap (λ b. oldest fits (if b then older none j st else none) m) (sym yes_) ∙ e))
    | inr no_ ↦ (
      no_,
      oldest-NoCandidate m
          (ap (λ b. oldest fits (if b then older none j st else none) m) (sym no_) ∙ e),
    )
  ]

  abbrev NotAbove : ℕ → Option (ℕ × ℕ) → Type 0
  NotAbove generation none = Unit
  NotAbove generation (some (k, g)) = generation ≤ g

  older_le :
      (best : Option (ℕ × ℕ)) (j : ℕ) (st : ModuleState) (generation : ℕ)
      → NotAbove generation (next best j st)
      → NotAbove generation best × (fits j st ≡ true → generation ≤ st.generation)
  unfolding older
  older_le none j st generation h = (tt, λ y. ground arith)
  older_le (some (k, g)) j st generation h = (ground arith, λ y. ground arith)

  oldest-NoneOlder :
      (m : Map ModuleState) (best : Option (ℕ × ℕ)) (id generation : ℕ)
      → oldest fits best m ≡ some (id, generation)
      → NotAbove generation best × NoneOlder generation m
  unfolding oldest
  oldest-NoneOlder [] best id generation e = (subst (NotAbove generation) (sym e) (omega arith), tt)
  oldest-NoneOlder ((j, st) ∷ m) best id generation e =
      let (above, rest) = oldest-NoneOlder m (next best j st) id generation e in
      let (kept, own) = older_le best j st generation above in (kept, (own, rest))

-- What `evictOldest…` has done.
pub data Evicted (fits : ℕ → ModuleState → Bool) (c : Carousel) : Carousel × Bool → Type 0 where
  nothing : NoCandidate fits c.modules → Evicted fits c (c, false)
  oldest_gone :
      (id generation : ℕ)
      → IsCandidate fits c.modules id generation
      → NoneOlder fits generation c.modules
      → Evicted fits c (remove_module id c, true)

-- In a map without a key twice, either eviction (`evictOldestInFlight`, `evictOldestCompletedExcept`)
-- removes a candidate of the lowest generation, or there is no candidate and nothing changes.
pub evict_oldest-Evicted :
    (fits : ℕ → ModuleState → Bool) (c : Carousel)
    → IsMap c.modules
    → Evicted fits c (evict_oldest fits c)
unfolding evict_oldest
evict_oldest-Evicted fits c u = elim (Option-cases (oldest fits none c.modules)) [
  | inl none_left ↦
      rw (none_left, evict_oldest) (nothing (oldest-NoCandidate fits c.modules none_left))
  | inr ((id, generation), found) ↦
      rw (found, evict_oldest)
        (oldest_gone id generation
          (elim (oldest-IsCandidate fits c.modules none id generation u found) [
            | inl no_ ↦ cc
            | inr yes_ ↦ yes_
          ])
          (oldest-NoneOlder fits c.modules none id generation found).1)
]

pub length-remove :
    (id : ℕ) (st : ModuleState) (m : Map ModuleState)
    → IsMap m
    → lookup id m ≡ some st
    → length (remove id m) < length m
unfolding lookup remove
length-remove id st [] u h = cc
length-remove id st ((j, t) ∷ m) u h = elim (Bool-cases (j == id)) [
  | inl same ↦
      let k : j ≡ id = (==_iff j id).0 same in
      let gone : remove id m ≡ m = remove_absent id m (rw (← k) u.0) in
      rw same (rw gone (omega arith))
  | inr other ↦ rw other (omega (arith, length-remove id st m u.1 (ground arith)))
]

forget-modules :
    (id : ℕ) (st : ModuleState) (c : Carousel) → (forget id st c).modules ≡ remove id c.modules
unfolding forget
forget-modules id st c = ground arith

pub remove_module-modules :
    (id : ℕ) (c : Carousel) → (remove_module id c).modules ≡ remove id c.modules
unfolding remove_module
remove_module-modules id c = elim (Option-cases (lookup id c.modules)) [
  | inl absent ↦
      rw (absent, remove_module)
        (sym (remove_absent id c.modules (has-eq_false id c.modules absent)))
  | inr (st, found) ↦ rw (found, remove_module) (forget-modules id st c)
]

-- The loop stops where its test fails or no candidate is left.
abbrev pub Stopped : (Carousel → Bool) → (ℕ → ModuleState → Bool) → Carousel → Type 0
Stopped over fits c = (over c ≡ false) ⊎ NoCandidate fits c.modules

pub evict_while-step :
    (fuel : ℕ) (over : Carousel → Bool) (fits : ℕ → ModuleState → Bool) (c : Carousel)
    → over c ≡ true
    → evict_while (suc fuel) over fits c ≡ (
        if (evict_oldest fits c).1
        then evict_while fuel over fits (evict_oldest fits c).0
        else (evict_oldest fits c).0)
unfolding evict_while
evict_while-step fuel over fits c e = ground arith

pub no_modules :
    (fits : ℕ → ModuleState → Bool) (m : Map ModuleState) → length m ≤ 0 → NoCandidate fits m
no_modules fits [] h = tt
no_modules fits (x ∷ m) h = absurd (omega arith)

-- With a round for each module, an eviction loop keeps the counters equal to their sums and never
-- raises them, and stops only where its test is false or no candidate is left.
pub evict_while-Stopped :
    (fuel : ℕ) (over : Carousel → Bool) (fits : ℕ → ModuleState → Bool) (c : Carousel)
    → length c.modules ≤ fuel
    → IsBalanced c
    → IsBalanced (evict_while fuel over fits c)
      × Shrinks c (evict_while fuel over fits c)
      × Stopped over fits (evict_while fuel over fits c)
evict_while-Stopped zero over fits c h b =
    unfold evict_while in (b, Shrinks-refl c, inr (no_modules fits c.modules h))
evict_while-Stopped (suc fuel) over fits c h b = elim (Bool-cases (over c)) [
  | inl more ↦ rw (evict_while-step fuel over fits c more) (
      round (evict_while-Stopped fuel over fits) (evict_oldest fits c)
        (evict_oldest-Evicted fits c b.unique))
  | inr done ↦ unfold evict_while in rw (done, evict_while) (b, Shrinks-refl c, inl done)
]
  where
    round :
        ((c' : Carousel)
          → length c'.modules ≤ fuel
          → IsBalanced c'
          → IsBalanced (evict_while fuel over fits c')
            × Shrinks c' (evict_while fuel over fits c')
            × Stopped over fits (evict_while fuel over fits c'))
        → (r : Carousel × Bool) → Evicted fits c r
        → IsBalanced (if r.1 then evict_while fuel over fits r.0 else r.0)
          × Shrinks c (if r.1 then evict_while fuel over fits r.0 else r.0)
          × Stopped over fits (if r.1 then evict_while fuel over fits r.0 else r.0)
    round again (_, _) (nothing none_left) = (b, Shrinks-refl c, inr none_left)
    round again (_, _) (oldest_gone id g cand _) =
        let (kept, less) = remove_module-IsBalanced id c b in
        let shorter = length-remove id cand.state c.modules b.unique cand.there in
        let left = remove_module-modules id c in
        let fuelled : length (remove_module id c).modules ≤ fuel = rw left (omega arith) in
        let (kept', less', stopped) = again (remove_module id c) fuelled kept in
        (kept', Shrinks-trans less less', stopped)
