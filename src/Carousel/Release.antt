-- ===== src/Carousel/Release.antt =====
-- Restored modules and released payloads keep the books.
use mahiron.Base.{
  ℕ, ◌<◌, ◌^◌, ◌≡◌, refl, Bool, true, false, [], length, ◌/=◌, ◌||◌, some, arith, Bool-cases,
  Option-cases, inl, inr,
}
use mahiron.Base.Assoc.{lookup, insert-IsMap}
use mahiron.Carousel.{ModuleState, Module, Carousel, remove_module, over_completed, block_count}
use mahiron.Carousel.Blocks.{
  settle, holds, release_state, release_completed_payload, restore_state, restore, len32,
}
use mahiron.Carousel.Weight.{
  flight_of, payload_of, weight-insert_over, weight-lookup, Each-insert, Each-lookup,
}
use mahiron.Carousel.Budget.{IsState, IsWithin, sub64-eq}
use mahiron.Carousel.Complete.{done-IsState, if-fst, Keeps, settle-Keeps}

-- The guards of `Restore` behind the first.
abbrev differs : Module → ModuleState → Bool
differs item st =
    st.download_id /= item.download_id
    || (st.info.version /= item.version
        || (st.info.module_size /= item.size || len32 item.bytes /= item.size))

restore_state-Keeps :
    (item : Module) (st : ModuleState) (c : Carousel)
    → length item.bytes < 2 ^ 32
    → lookup item.module_id c.modules ≡ some st
    → IsWithin c
    → Keeps c (restore_state item st c).0
unfolding restore_state
restore_state-Keeps item st c short found w = elim (Bool-cases st.completed) [
  | inl done ↦ rw (done, restore_state) (w, refl)
  | inr waits ↦ elim (Bool-cases (differs item st)) [
    | inl other ↦ rw (waits, restore_state) (rw other (w, refl))
    | inr same ↦
        let st' : ModuleState = record st {
          bytes = item.bytes;
          received = [];
          count = block_count st.info.module_size st.block_size;
          completed = true;
        } in
        let full : length item.bytes ≡ st.info.module_size = ground arith in
        let c' = settle item.module_id st' c in
        let end_ = if-fst (over_completed c') (remove_module item.module_id c') c' false true in
        rw (waits, restore_state)
          (rw same (rw end_ (settle-Keeps item.module_id st' st c found waits refl refl full w)))
  ]
]

-- `Restore` keeps the books on every branch.
pub restore-Keeps :
    (item : Module) (c : Carousel)
    → length item.bytes < 2 ^ 32
    → IsWithin c
    → Keeps c (restore item c).0
unfolding restore
restore-Keeps item c short w = elim (Option-cases (lookup item.module_id c.modules)) [
  | inl absent ↦ rw (absent, restore) (w, refl)
  | inr (st, found) ↦ rw (found, restore) (restore_state-Keeps item st c short found w)
]

release_state-Keeps :
    (id : ℕ) (st : ModuleState) (c : Carousel)
    → lookup id c.modules ≡ some st
    → IsWithin c
    → Keeps c (release_state id st c).0
unfolding release_state
release_state-Keeps id st c found w = elim (Bool-cases (holds st)) [
  | inr no_ ↦ rw (no_, release_state) (w, refl)
  | inl yes_ ↦
      let done : st.completed ≡ true = ground arith in
      let st' : ModuleState = record st { bytes = [] } in
      let b = w.0 in
      let below = w.1 in
      let sane = b.sane in
      let flight = b.flight in
      let payload = b.payload in
      let f' = weight-insert_over flight_of id st' st c.modules found in
      let p' = weight-insert_over payload_of id st' st c.modules found in
      let own : payload_of st ≡ length st.bytes = rw done refl in
      let gone : payload_of st' ≡ 0 = ground arith in
      let same : flight_of st' ≡ flight_of st = refl in
      let least = weight-lookup payload_of id st c.modules found in
      let sub = sub64-eq c.completed_bytes (length st.bytes) (omega arith) (omega arith) in
      let size = (Each-lookup IsState id c.modules b.each found).sized in
      rw (yes_, release_state)
        (
          (
            record {
              sane = b.sane;
              unique = insert-IsMap id st' c.modules b.unique;
              each = Each-insert IsState id st' c.modules b.each (done-IsState st' size done);
              flight = omega arith;
              payload = omega arith;
              flight_bound = b.flight_bound;
              payload_bound = omega arith;
            },
            omega arith,
          ),
          refl,
        )
]

-- A released payload leaves its budget, and nothing else changes in the books.
pub release_completed_payload-Keeps :
    (id : ℕ) (c : Carousel) → IsWithin c → Keeps c (release_completed_payload id c).0
unfolding release_completed_payload
release_completed_payload-Keeps id c w = elim (Option-cases (lookup id c.modules)) [
  | inl absent ↦ rw (absent, release_completed_payload) (w, refl)
  | inr (st, found) ↦ rw (found, release_completed_payload) (release_state-Keeps id st c found w)
]
