-- ===== src/Carousel/Budget.antt =====
-- The books of a carousel: each counter is the sum over the modules that it counts.
use mahiron.Base.{
  ℕ, ◌+◌, ◌-◌, ◌^◌, ◌≤◌, ◌<◌, ◌≡◌, refl, ◌∙◌, Bool, true, false, List, [], ◌∷◌, length, ◌==◌,
  if◌then◌else◌, none, some, arith, Bool-cases, Option-cases, inl, inr,
}
use mahiron.Base.Assoc.{Map, lookup, remove, IsMap, remove-IsMap, lookup-remove}
use mahiron.Carousel.{Limits, ModuleState, Carousel, add64, sub64, forget, remove_module}
use mahiron.Carousel.Weight.{weight, flight_of, payload_of, weight-remove, Each, Each-remove}

-- How many blocks are marked.
abbrev pub marked : List Bool → ℕ
marked [] = 0
marked (b ∷ bs) = (if b then 1 else 0) + marked bs

-- A state that waits for blocks has a buffer of the module's size and counts its marks.
pub record IsState (st : ModuleState) : Type 0 where
  pub sized : st.info.module_size < 2 ^ 32
  pub filled : st.completed ≡ false → length st.bytes ≡ st.info.module_size
  pub counted : st.completed ≡ false → marked st.received ≡ st.count

-- The two budgets leave room for one more module in a uint64.
abbrev pub IsSane : Limits → Type 0
IsSane l = (l.max_in_flight_bytes < 2 ^ 63) × (l.max_completed_bytes < 2 ^ 63)

-- The counters are true, also while a completed module makes the others move out.
pub record IsBalanced (c : Carousel) : Type 0 where
  pub sane : IsSane c.limits
  pub unique : IsMap c.modules
  pub each : Each IsState c.modules
  pub flight : c.in_flight_bytes ≡ weight flight_of c.modules
  pub payload : c.completed_bytes ≡ weight payload_of c.modules
  pub flight_bound : c.in_flight_bytes ≤ c.limits.max_in_flight_bytes
  pub payload_bound : c.completed_bytes ≤ c.limits.max_completed_bytes + 2 ^ 32

-- Between two operations both budgets are kept.
abbrev pub IsWithin : Carousel → Type 0
IsWithin c = IsBalanced c × (c.completed_bytes ≤ c.limits.max_completed_bytes)

pub sub64-eq : (a b : ℕ) → b ≤ a → a < 2 ^ 64 → sub64 a b ≡ a - b
unfolding sub64
sub64-eq a b h k = omega arith

pub add64-eq : (a b : ℕ) → a + b < 2 ^ 64 → add64 a b ≡ a + b
unfolding add64
add64-eq a b h = omega arith

-- What removal does to the counters.
pub record Shrinks (c c' : Carousel) : Type 0 where
  pub limits : c'.limits ≡ c.limits
  pub flight_le : c'.in_flight_bytes ≤ c.in_flight_bytes
  pub payload_le : c'.completed_bytes ≤ c.completed_bytes
  pub absent : (k : ℕ) → lookup k c.modules ≡ none → lookup k c'.modules ≡ none

lookup-remove-none :
    (id k : ℕ) (m : Map ModuleState) → lookup k m ≡ none → lookup k (remove id m) ≡ none
lookup-remove-none id k m h =
    lookup-remove id k m ∙ elim (Bool-cases (id == k)) [ inl e ↦ rw e refl | inr e ↦ rw e h ]

module _ (id : ℕ) (st : ModuleState) (c : Carousel) (b : IsBalanced c)
    (found : lookup id c.modules ≡ some st) where
  payload_gone :
      st.completed ≡ true
      → sub64 c.completed_bytes (length st.bytes) ≡ weight payload_of (remove id c.modules)
  payload_gone e =
      let own : payload_of st ≡ length st.bytes = rw e in
      let left = weight-remove payload_of id st c.modules b.unique found in
      let sums = b.payload in
      let bound = b.payload_bound in
      let sane = b.sane.1 in
      sub64-eq c.completed_bytes (length st.bytes) (omega arith) (omega arith) ∙ omega arith

  flight_same : st.completed ≡ true → c.in_flight_bytes ≡ weight flight_of (remove id c.modules)
  flight_same e =
      let own : flight_of st ≡ 0 = rw e in
      let left = weight-remove flight_of id st c.modules b.unique found in
      let sums = b.flight in omega arith

  flight_gone :
      st.completed ≡ false
      → sub64 c.in_flight_bytes st.info.module_size ≡ weight flight_of (remove id c.modules)
  flight_gone e =
      let own : flight_of st ≡ st.info.module_size = rw e in
      let left = weight-remove flight_of id st c.modules b.unique found in
      let sums = b.flight in
      let bound = b.flight_bound in
      let sane = b.sane.0 in
      sub64-eq c.in_flight_bytes st.info.module_size (omega arith) (omega arith) ∙ omega arith

  payload_same : st.completed ≡ false → c.completed_bytes ≡ weight payload_of (remove id c.modules)
  payload_same e =
      let own : payload_of st ≡ 0 = rw e in
      let left = weight-remove payload_of id st c.modules b.unique found in
      let sums = b.payload in omega arith

  pub forget-IsBalanced : IsBalanced (forget id st c) × Shrinks c (forget id st c)
  unfolding forget
  forget-IsBalanced = elim (Bool-cases st.completed) [
    | inl e ↦
        let gone = payload_gone e in
        let less = weight-remove payload_of id st c.modules b.unique found in
        let sums = b.payload in
        let bound = b.payload_bound in
        rw e (
          record {
            sane = b.sane;
            unique = remove-IsMap id c.modules b.unique;
            each = Each-remove IsState id c.modules b.each;
            flight = flight_same e;
            payload = gone;
            flight_bound = b.flight_bound;
            payload_bound = omega arith;
          },
          record {
            limits = refl;
            flight_le = omega arith;
            payload_le = omega arith;
            absent = λ k. lookup-remove-none id k c.modules;
          },
        )
    | inr e ↦
        let gone = flight_gone e in
        let less = weight-remove flight_of id st c.modules b.unique found in
        let sums = b.flight in
        let bound = b.flight_bound in
        rw e (
          record {
            sane = b.sane;
            unique = remove-IsMap id c.modules b.unique;
            each = Each-remove IsState id c.modules b.each;
            flight = gone;
            payload = payload_same e;
            flight_bound = omega arith;
            payload_bound = b.payload_bound;
          },
          record {
            limits = refl;
            flight_le = omega arith;
            payload_le = omega arith;
            absent = λ k. lookup-remove-none id k c.modules;
          },
        )
  ]

pub Shrinks-refl : (c : Carousel) → Shrinks c c
Shrinks-refl c = record {
  limits = refl;
  flight_le = omega arith;
  payload_le = omega arith;
  absent = λ k h. h;
}

-- `remove` keeps the books, and frees what the module took.
pub remove_module-IsBalanced :
    (id : ℕ) (c : Carousel)
    → IsBalanced c
    → IsBalanced (remove_module id c) × Shrinks c (remove_module id c)
unfolding remove_module
remove_module-IsBalanced id c b = elim (Option-cases (lookup id c.modules)) [
  | inl absent ↦ rw (absent, remove_module) (b, Shrinks-refl c)
  | inr (st, found) ↦ rw (found, remove_module) (forget-IsBalanced id st c b found)
]

pub Shrinks-trans : {a b c : Carousel} → Shrinks a b → Shrinks b c → Shrinks a c
Shrinks-trans s t = record {
  limits = t.limits ∙ s.limits;
  flight_le = let p = s.flight_le in let q = t.flight_le in omega arith;
  payload_le = let p = s.payload_le in let q = t.payload_le in omega arith;
  absent = λ k h. t.absent k (s.absent k h);
}

-- With the completed payloads in their budget a balanced state is one between two operations.
pub Shrinks-IsWithin : {c c' : Carousel} → IsWithin c → IsBalanced c' → Shrinks c c' → IsWithin c'
Shrinks-IsWithin w b s =
    (b, let l = s.limits in let p = s.payload_le in let q = w.1 in rw l (omega arith))
