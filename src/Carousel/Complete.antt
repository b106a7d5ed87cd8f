-- ===== src/Carousel/Complete.antt =====
-- The DDBs keep the books: a block is stored, and the last one completes its module.
use mahiron.Base.{
  ℕ, zero, suc, ◌+◌, ◌-◌, ◌<◌, ◌^◌, ◌*◌, ◌≡◌, refl, ◌∙◌, Bool, true, false, List, [], ◌∷◌, ◌++◌,
  length, ltb, if◌then◌else◌, none, some, arith, Bool-cases, Option-cases, inl, inr, set, get_or,
  take, drop, min, length-append, length-take, length-drop,
}
use mahiron.Base.Assoc.{Map, lookup, remove, insert-IsMap}
use mahiron.Ts.Words.{Bytes}
use mahiron.Carousel.{
  ModuleState, Ddb, Carousel, add64, sub64, remove_module, over_completed, is_evictable, ignored,
  completed,
}
use mahiron.Carousel.Blocks.{
  put, splice, is_foreign, store_block, settle, complete, observe_state, observe_ddb, module_of,
}
use mahiron.Carousel.Weight.{
  weight, flight_of, payload_of, weight-insert_over, weight-lookup, Each-insert, Each-lookup,
}
use mahiron.Carousel.Budget.{
  marked, IsState, IsBalanced, IsWithin, remove_module-IsBalanced, add64-eq, sub64-eq,
}
use mahiron.Carousel.Eviction.{NoCandidate, Stopped, evict_while-Stopped, remove_module-modules}

pub marked-set :
    (bs : List Bool) (n : ℕ)
    → n < length bs
    → marked (set bs n true) ≡ (if get_or bs n false then marked bs else marked bs + 1)
marked-set [] n h = absurd (omega arith)
marked-set (b ∷ bs) zero h = ground arith
marked-set (b ∷ bs) (suc n) h = ground (arith, marked-set bs n (omega arith))

pub length-set {ℓ} : {A : Type ℓ} (xs : List A) (n : ℕ) (a : A) → length (set xs n a) ≡ length xs
length-set [] n a = refl
length-set (x ∷ xs) zero a = refl
length-set (x ∷ xs) (suc n) a = omega (arith, length-set xs n a)

pub length-splice :
    (bytes : Bytes) (off : ℕ) (from : Bytes)
    → off < length bytes
    → length (splice bytes off (min (off + length from) (length bytes)) from) ≡ length bytes
unfolding splice
length-splice bytes off from h =
    let end_ = min (off + length from) (length bytes) in
    let a = length-append (take off bytes) (take (end_ - off) from ++ drop end_ bytes) in
    let b = length-append (take (end_ - off) from) (drop end_ bytes) in
    let p = length-take off bytes in
    let q = length-take (end_ - off) from in let r = length-drop end_ bytes in omega arith

-- The guards of a block, as facts.
pub record IsOwn (ddb : Ddb) (st : ModuleState) : Type 0 where
  pub waits : st.completed ≡ false
  pub version : st.info.version ≡ ddb.module_version
  pub download : st.download_id ≡ ddb.download_id
  pub number : ddb.block_number < length st.received
  pub offset : ddb.block_number * st.block_size < length st.bytes

pub is_foreign-IsOwn : (ddb : Ddb) (st : ModuleState) → is_foreign ddb st ≡ false → IsOwn ddb st
unfolding is_foreign
is_foreign-IsOwn ddb st h = record {
  waits = ground arith;
  version = ground arith;
  download = ground arith;
  number = ground arith;
  offset = ground arith;
}

store_block-IsState :
    (ddb : Ddb) (st : ModuleState) → IsState st → IsOwn ddb st → IsState (store_block ddb st)
unfolding store_block
store_block-IsState ddb st s o = record {
  sized = s.sized;
  filled = λ e.
      length-splice st.bytes (ddb.block_number * st.block_size) ddb.bytes o.offset ∙ s.filled e;
  counted = λ e.
      let m = marked-set st.received ddb.block_number o.number in
      let k = s.counted e in ground arith;
}

-- A changed state takes what it took before.
put-IsWithin :
    (id : ℕ) (st old : ModuleState) (c : Carousel)
    → lookup id c.modules ≡ some old
    → flight_of st ≡ flight_of old
    → payload_of st ≡ payload_of old
    → IsState st
    → IsWithin c
    → IsWithin (put id st c)
put-IsWithin id st old c found f p s (b, w) =
    let flight = b.flight in
    let payload = b.payload in
    let f' = weight-insert_over flight_of id st old c.modules found in
    let p' = weight-insert_over payload_of id st old c.modules found in
    (
      record {
        sane = b.sane;
        unique = insert-IsMap id st c.modules b.unique;
        each = Each-insert IsState id st c.modules b.each s;
        flight = omega arith;
        payload = omega arith;
        flight_bound = b.flight_bound;
        payload_bound = b.payload_bound;
      },
      w,
    )

-- A state that is complete now: nothing waits for blocks.
pub done-IsState :
    (st : ModuleState) → st.info.module_size < 2 ^ 32 → st.completed ≡ true → IsState st
done-IsState st h e = record { sized = h; filled = λ n. cc; counted = λ n. cc }

module _ (id : ℕ) (st old : ModuleState) (c : Carousel) (found : lookup id c.modules ≡ some old)
    (waits : old.completed ≡ false) (done : st.completed ≡ true)
    (same : st.info.module_size ≡ old.info.module_size)
    (full : length st.bytes ≡ old.info.module_size) (w : IsWithin c) where
  -- The completed module in the other budget, before the eviction.
  abbrev moved : Carousel
  moved = put id st (record c {
    in_flight_bytes = sub64 c.in_flight_bytes st.info.module_size;
    completed_bytes = add64 c.completed_bytes st.info.module_size;
  })

  moved-IsBalanced : IsBalanced moved
  moved-IsBalanced =
      let b = w.0 in
      let below = w.1 in
      let size = (Each-lookup IsState id c.modules b.each found).sized in
      let flight = b.flight in
      let payload = b.payload in
      let sane = b.sane in
      let bound = b.flight_bound in
      let f' = weight-insert_over flight_of id st old c.modules found in
      let p' = weight-insert_over payload_of id st old c.modules found in
      let f_old : flight_of old ≡ old.info.module_size = rw waits refl in
      let p_old : payload_of old ≡ 0 = rw waits refl in
      let f_new : flight_of st ≡ 0 = rw done refl in
      let p_new : payload_of st ≡ old.info.module_size = rw done full in
      let least = weight-lookup flight_of id old c.modules found in
      let sub = sub64-eq c.in_flight_bytes st.info.module_size (omega arith) (omega arith) in
      let add = add64-eq c.completed_bytes st.info.module_size (omega arith) in
      record {
        sane = b.sane;
        unique = insert-IsMap id st c.modules b.unique;
        each = Each-insert IsState id st c.modules b.each (done-IsState st (rw same size) done);
        flight = omega arith;
        payload = omega arith;
        flight_bound = omega arith;
        payload_bound = omega arith;
      }

  -- The books hold behind the eviction, which stopped within the budget or without a candidate.
  pub settle-Stopped :
      IsBalanced (settle id st c)
      × ((settle id st c).limits ≡ c.limits)
      × Stopped over_completed (is_evictable id) (settle id st c)
  unfolding settle
  settle-Stopped =
      let (b, s, stopped) =
        evict_while-Stopped (length moved.modules) over_completed (is_evictable id) moved
          (omega arith) moved-IsBalanced in
      (b, s.limits, stopped)

pub only_one :
    (id : ℕ) (m : Map ModuleState)
    → NoCandidate (is_evictable id) m
    → weight payload_of (remove id m) ≡ 0
unfolding weight remove
only_one id [] h = refl
only_one id ((j, st) ∷ m) h = ground (arith, only_one id m h.1)

-- The end of a completion: a module that exceeds the budget alone is dropped.
abbrev kept : ℕ → Carousel → Carousel
kept id c = if over_completed c then remove_module id c else c

kept-IsWithin :
    (id : ℕ) (c : Carousel)
    → IsBalanced c
    → Stopped over_completed (is_evictable id) c
    → IsWithin (kept id c) × ((kept id c).limits ≡ c.limits)
kept-IsWithin id c b stopped = elim (Bool-cases (over_completed c)) [
  | inr within ↦ rw within ((b, ground arith), refl)
  | inl over ↦ elim stopped [
    | inl not_over ↦ absurd (cc (over, not_over))
    | inr none_left ↦
        let (b', s) = remove_module-IsBalanced id c b in
        let alone = only_one id c.modules none_left in
        let sums = b'.payload in
        let gone : weight payload_of (remove_module id c).modules ≡ 0 =
          rw (remove_module-modules id c) alone in
        rw over ((b', omega arith), s.limits)
  ]
]

pub if-fst {ℓ κ} :
    {A : Type ℓ} {B : Type κ} (b : Bool) (x y : A) (p q : B)
    → (if◌then◌else◌ {A = A × B} b (x, p) (y, q)).0 ≡ (if b then x else y)
if-fst true x y p q = refl
if-fst false x y p q = refl

-- The books hold, and the limits stay.
abbrev pub Keeps : Carousel → Carousel → Type 0
Keeps c c' = IsWithin c' × (c'.limits ≡ c.limits)

pub settle-Keeps :
    (id : ℕ) (st old : ModuleState) (c : Carousel)
    → lookup id c.modules ≡ some old
    → old.completed ≡ false
    → st.completed ≡ true
    → st.info.module_size ≡ old.info.module_size
    → length st.bytes ≡ old.info.module_size
    → IsWithin c
    → Keeps c (kept id (settle id st c))
settle-Keeps id st old c found waits done same full w =
    let (b, l, stopped) = settle-Stopped id st old c found waits done same full w in
    let (w', l') = kept-IsWithin id (settle id st c) b stopped in (w', l' ∙ l)

complete-kept :
    (id : ℕ) (st : ModuleState) (c : Carousel)
    → (complete id st c).0 ≡ kept id (settle id (record st { completed = true; received = [] }) c)
unfolding complete
complete-kept id st c =
    let c' = settle id (record st { completed = true; received = [] }) c in
    if-fst (over_completed c') (remove_module id c') c'
      (record { finished = none; result = ignored; over_budget = true })
      (record {
        finished = some (module_of (record st { completed = true; received = [] }));
        result = completed;
        over_budget = false;
      })

store_block-payload_of :
    (ddb : Ddb) (st : ModuleState)
    → st.completed ≡ false
    → payload_of (store_block ddb st) ≡ payload_of st
unfolding store_block
store_block-payload_of ddb st e = ground arith

observe_state-Keeps :
    (ddb : Ddb) (st : ModuleState) (c : Carousel)
    → lookup ddb.module_id c.modules ≡ some st
    → IsWithin c
    → Keeps c (observe_state ddb st c).0
unfolding observe_state
observe_state-Keeps ddb st c found w = elim (Bool-cases (is_foreign ddb st)) [
  | inl foreign ↦ rw (foreign, observe_state) (w, refl)
  | inr own ↦
      let o = is_foreign-IsOwn ddb st own in
      let s = Each-lookup IsState ddb.module_id c.modules w.0.each found in
      let s' = store_block-IsState ddb st s o in
      let st' = store_block ddb st in
      let size : st'.info.module_size ≡ st.info.module_size = unfold store_block in refl in
      let waits : st'.completed ≡ false = unfold store_block in o.waits in
      let f : flight_of st' ≡ flight_of st = unfold store_block in refl in
      let p = store_block-payload_of ddb st o.waits in
      rw (own, observe_state)
        (elim (Bool-cases (ltb st'.count (length st'.received))) [
          | inl more ↦ rw more (put-IsWithin ddb.module_id st' st c found f p s' w, refl)
          | inr all_there ↦ rw all_there (
              rw (complete-kept ddb.module_id st' c) (
                settle-Keeps ddb.module_id (record st' { completed = true; received = [] }) st c
                  found o.waits refl size (s'.filled waits ∙ size) w))
        ])
]

-- A DDB keeps the books on every branch.
pub observe_ddb-Keeps : (ddb : Ddb) (c : Carousel) → IsWithin c → Keeps c (observe_ddb ddb c).0
unfolding observe_ddb
observe_ddb-Keeps ddb c w = elim (Option-cases (lookup ddb.module_id c.modules)) [
  | inl absent ↦ rw (absent, observe_ddb) (w, refl)
  | inr (st, found) ↦ rw (found, observe_ddb) (observe_state-Keeps ddb st c found w)
]
