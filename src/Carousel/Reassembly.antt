-- ===== src/Carousel/Reassembly.antt =====
-- The blocks of one module, in any order and repeated, give the payload that was cut into them.
pub mod Run
pub mod Last
pub mod Ends
pub mod Fresh
mod Examples
use mahiron.Base.{
  ℕ, zero, suc, ◌+◌, ◌-◌, ◌*◌, ◌/◌, ◌%◌, ◌<◌, ◌≤◌, ◌≡◌, refl, sym, ap, ap₂, ◌∙◌, Bool, true, false,
  not, List, [], ◌∷◌, ◌++◌, length, ltb, leb, ◌==◌, ◌/=◌, ◌||◌, ◌&&◌, if◌then◌else◌, none, some,
  arith, Bool-cases, inl, inr, set, get_or, take, drop, min, length-append, length-take,
  length-drop, get_or-append_lt, get_or-take, ==_iff,
}
use native.Mathlib.Nat.{mul-le-mul_right, mod-add-div', mod-lt}
use mahiron.Ts.Words.{Bytes, at}
use mahiron.Carousel.Splice.{at-drop, at-splice}
use mahiron.Carousel.{ModuleState, Ddb}
use mahiron.Carousel.Blocks.{splice, store_block}
use mahiron.Carousel.Budget.{marked}
use mahiron.Carousel.Complete.{marked-set, length-set, length-splice, IsOwn}

get_or-set :
    (bs : List Bool) (n m : ℕ)
    → n < length bs
    → get_or (set bs n true) m false ≡ (if n == m then true else get_or bs m false)
get_or-set [] n m h = absurd (omega arith)
get_or-set (b ∷ bs) zero zero h = refl
get_or-set (b ∷ bs) zero (suc m) h = ground arith
get_or-set (b ∷ bs) (suc n) zero h = ground arith
get_or-set (b ∷ bs) (suc n) (suc m) h = ground (arith, get_or-set bs n m (omega arith))

-- A block of the payload, as it is cut.
abbrev pub piece : Bytes → ℕ → ℕ → Bytes
piece payload block_size number = take block_size (drop (number * block_size) payload)

-- A state that has stored blocks of the payload only: it has room for all of them, it counts its marks,
-- and where a block is marked the buffer holds the payload's bytes.
pub record IsPartOf (payload : Bytes) (st : ModuleState) : Type 0 where
  pub sized : length st.bytes ≡ length payload
  pub covers : length payload ≤ length st.received * st.block_size
  pub counted : marked st.received ≡ st.count
  pub right :
      (n j : ℕ)
      → j < st.block_size
      → n * st.block_size + j < length payload
      → get_or st.received n false ≡ true
      → at st.bytes (n * st.block_size + j) ≡ at payload (n * st.block_size + j)

-- Places of different blocks differ.
apart :
    (n m j size : ℕ)
    → (n == m) ≡ false
    → j < size
    → (leb (n * size) (m * size + j) && ltb (m * size + j) (n * size + size)) ≡ false
apart n m j size other h = elim (Bool-cases (ltb n m)) [
  | inl less ↦
      let step : suc n * size ≤ m * size = mul-le-mul_right size (ground arith) in
      let e : suc n * size ≡ n * size + size = omega arith in ground arith
  | inr more ↦
      let step : suc m * size ≤ n * size = mul-le-mul_right size (ground arith) in
      let e : suc m * size ≡ m * size + size = omega arith in ground arith
]

length-piece :
    (payload : Bytes) (size n : ℕ)
    → length (piece payload size n) ≡ min size (length payload - n * size)
length-piece payload size n =
    length-take size (drop (n * size) payload) ∙ ap (min size) (length-drop (n * size) payload)

at-piece :
    (payload : Bytes) (size n j : ℕ)
    → j < size
    → at (piece payload size n) j ≡ at payload (n * size + j)
at-piece payload size n j h =
    get_or-take size (drop (n * size) payload) j 0 h ∙ at-drop (n * size) payload j

store_block-right :
    (payload : Bytes) (ddb : Ddb) (st : ModuleState)
    → IsPartOf payload st
    → IsOwn ddb st
    → ddb.bytes ≡ piece payload st.block_size ddb.block_number
    → (n j : ℕ) → j < st.block_size
    → n * st.block_size + j < length payload
    → get_or (store_block ddb st).received n false ≡ true
    → at (store_block ddb st).bytes (n * st.block_size + j) ≡ at payload (n * st.block_size + j)
unfolding store_block
store_block-right payload ddb st p o cut_ n j small inside hit =
    let size = st.block_size in
    let k = ddb.block_number in
    let sized = p.sized in
    let start = o.offset in
    let own = length-piece payload size k in
    let whole : length ddb.bytes ≡ min size (length payload - k * size) = ap length cut_ ∙ own in
    let i : ℕ = n * size + j in
    let copy =
      at-splice st.bytes (k * size) (min (k * size + length ddb.bytes) (length st.bytes)) ddb.bytes
        i (omega arith) (omega arith) (omega arith) in
    elim (Bool-cases (k == n)) [
      | inl same ↦
          let m : k * size ≡ n * size = ap (λ t. t * size) ((==_iff k n).0 same) in
          let within : leb (k * size) i
                && ltb i (min (k * size + length ddb.bytes) (length st.bytes))
              ≡ true =
            ground arith in
          let back : i - k * size ≡ j = omega arith in
          let there : k * size + j ≡ i = omega arith in
          copy
          ∙ rw within (ap₂ at cut_ back ∙ at-piece payload size k j small ∙ ap (at payload) there)
      | inr other ↦
          let away = apart k n j size other small in
          let outside : leb (k * size) i
                && ltb i (min (k * size + length ddb.bytes) (length st.bytes))
              ≡ false =
            ground arith in
          let before : get_or st.received n false ≡ true =
            ground (arith, get_or-set st.received k n o.number) in
          copy ∙ rw outside (p.right n j small inside before)
    ]

pub store_block-IsPartOf :
    (payload : Bytes) (ddb : Ddb) (st : ModuleState)
    → IsPartOf payload st
    → IsOwn ddb st
    → ddb.bytes ≡ piece payload st.block_size ddb.block_number
    → IsPartOf payload (store_block ddb st)
unfolding store_block
store_block-IsPartOf payload ddb st p o cut_ = record {
  sized =
      unfold store_block in
      length-splice st.bytes (ddb.block_number * st.block_size) ddb.bytes o.offset ∙ p.sized;
  covers = unfold store_block in rw (length-set st.received ddb.block_number true) p.covers;
  counted =
      unfold store_block in
      let c = p.counted in let m = marked-set st.received ddb.block_number o.number in ground arith;
  right = store_block-right payload ddb st p o cut_;
}

marked-le : (bs : List Bool) → marked bs ≤ length bs
marked-le [] = omega arith
marked-le (true ∷ bs) = let r = marked-le bs in omega arith
marked-le (false ∷ bs) = let r = marked-le bs in omega arith

all_marked :
    (bs : List Bool) (n : ℕ) → length bs ≤ marked bs → n < length bs → get_or bs n false ≡ true
all_marked [] n h k = absurd (omega arith)
all_marked (true ∷ bs) zero h k = refl
all_marked (true ∷ bs) (suc n) h k = all_marked bs n (omega arith) (omega arith)
all_marked (false ∷ bs) n h k = absurd (let r = marked-le bs in omega arith)

equal_bytes :
    (xs ys : Bytes)
    → length xs ≡ length ys
    → ((i : ℕ) → i < length ys → at xs i ≡ at ys i)
    → xs ≡ ys
equal_bytes [] [] e h = refl
equal_bytes [] (y ∷ ys) e h = absurd (omega arith)
equal_bytes (x ∷ xs) [] e h = absurd (omega arith)
equal_bytes (x ∷ xs) (y ∷ ys) e h =
    ap₂ ◌∷◌ (h 0 (omega arith)) (equal_bytes xs ys (omega arith) (λ i k. h (suc i) (omega arith)))

fewer : (n m size : ℕ) → n * size < m * size → n < m
fewer n m size h = elim (Bool-cases (ltb n m)) [
  | inl less ↦ ground arith
  | inr more ↦
      let step : m * size ≤ n * size = mul-le-mul_right size (ground arith) in absurd (omega arith)
]

-- Where every block is marked the buffer is the payload.
pub full-payload :
    (payload : Bytes) (st : ModuleState)
    → IsPartOf payload st
    → 0 < st.block_size
    → length st.received ≤ st.count
    → st.bytes ≡ payload
full-payload payload st p positive full = equal_bytes st.bytes payload p.sized λ i inside.
    let size = st.block_size in
    let n : ℕ = i / size in
    let parts : i % size + n * size ≡ i = mod-add-div' i size in
    let small : i % size < size = mod-lt i positive in
    let place : n * size + i % size ≡ i = omega arith in
    let below : n < length st.received =
      fewer n (length st.received) size (let c = p.covers in omega arith) in
    let counted = p.counted in
    ap (at st.bytes) (sym place)
    ∙ p.right n (i % size) small (rw place inside) (all_marked st.received n (omega arith) below)
    ∙ ap (at payload) place
