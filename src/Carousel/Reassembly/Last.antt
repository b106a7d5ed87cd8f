-- ===== src/Carousel/Reassembly/Last.antt =====
-- What a block of an awaited module does: it is stored, and the last one completes the module.
use mahiron.Base.{
  ℕ, suc, ◌*◌, ◌<◌, ◌≤◌, ◌≡◌, refl, sym, ◌∙◌, Bool, true, false, List, [], ◌∷◌, length, ltb, ◌==◌,
  ◌||◌, some, arith, Option-cases, inl, inr, get_or, ==_refl,
}
use mahiron.Base.Assoc.{lookup, remove, lookup-insert, has-eq_false, remove_absent}
use mahiron.Carousel.{ModuleState, Ddb, Carousel, over_completed, is_evictable, add64, sub64}
use mahiron.Carousel.Blocks.{
  put, is_foreign, store_block, settle, complete, observe_state, observe_ddb, module_of,
}
use mahiron.Carousel.Weight.{weight, payload_of, weight-remove}
use mahiron.Carousel.Budget.{marked, IsWithin}
use mahiron.Carousel.Complete.{IsOwn, settle-Stopped, only_one, length-set}
use mahiron.Carousel.Reassembly.{piece, get_or-set, fewer}
use mahiron.Carousel.Reassembly.Run.{Source, Awaits, IsHonest, evict_while-Shrunk}

-- A block of the source.
pub record IsBlockOf (src : Source) (ddb : Ddb) : Type 0 where
  pub same_module : ddb.module_id ≡ src.module_id
  pub same_download : ddb.download_id ≡ src.download_id
  pub same_version : ddb.module_version ≡ src.version
  pub inside : ddb.block_number * src.block_size < length src.payload
  pub cut : ddb.bytes ≡ piece src.payload src.block_size ddb.block_number

-- The module waits for the source with a state, whose budget it does not exceed alone.
pub record Waits (src : Source) (st : ModuleState) (c : Carousel) : Type 0 where
  pub found : lookup src.module_id c.modules ≡ some st
  pub open_ : st.completed ≡ false
  pub awaits : Awaits src st
  pub missing : st.count < length st.received
  pub within : IsWithin c
  pub fits : length src.payload ≤ c.limits.max_completed_bytes

unfoldable pub has_block : ℕ → List Ddb → Bool
has_block n [] = false
has_block n (ddb ∷ rest) = (ddb.block_number == n) || has_block n rest

-- What the source still needs is in the list.
abbrev pub Supplies : List Ddb → ModuleState → Type 0
Supplies ddbs st =
    (n : ℕ) → n < length st.received → (get_or st.received n false || has_block n ddbs) ≡ true

pub block-IsOwn :
    (src : Source) (ddb : Ddb) (st : ModuleState)
    → IsBlockOf src ddb
    → st.completed ≡ false
    → Awaits src st
    → IsOwn ddb st
block-IsOwn src ddb st b waits a =
    let same_size = a.same_size in
    let sized = a.part.sized in
    let covers = a.part.covers in
    let place : ddb.block_number * st.block_size < length src.payload = rw same_size b.inside in
    record {
      waits = waits;
      version = a.same_version ∙ sym b.same_version;
      download = a.same_download ∙ sym b.same_download;
      number = fewer ddb.block_number (length st.received) st.block_size (omega arith);
      offset = omega arith;
    }

pub IsOwn-is_foreign :
    (ddb : Ddb) (st : ModuleState) → 0 < st.block_size → IsOwn ddb st → is_foreign ddb st ≡ false
unfolding is_foreign
IsOwn-is_foreign ddb st p o =
    let waits = o.waits in
    let version = o.version in
    let download = o.download in let number = o.number in let offset = o.offset in ground arith

pub block-IsHonest : (src : Source) (ddb : Ddb) → IsBlockOf src ddb → IsHonest src ddb
block-IsHonest src ddb b = λ p q r. b.cut

pub store_block-Supplies :
    (ddb : Ddb) (rest : List Ddb) (st : ModuleState)
    → IsOwn ddb st
    → Supplies (ddb ∷ rest) st
    → Supplies rest (store_block ddb st)
unfolding has_block store_block
store_block-Supplies ddb rest st o s = λ n h.
    let l = length-set st.received ddb.block_number true in
    let before = s n (omega arith) in
    let law = get_or-set st.received ddb.block_number n o.number in ground arith

-- With nothing left to come every block is there.
pub supplied :
    (bs : List Bool) → ((n : ℕ) → n < length bs → get_or bs n false ≡ true) → marked bs ≡ length bs
supplied [] h = refl
supplied (true ∷ bs) h = let r = supplied bs (λ n k. h (suc n) (omega arith)) in omega arith
supplied (false ∷ bs) h = let e = h 0 (omega arith) in cc

-- A module within the budget stays when it is complete.
pub settle-fits :
    (id : ℕ) (st old : ModuleState) (c : Carousel)
    → lookup id c.modules ≡ some old
    → old.completed ≡ false
    → st.completed ≡ true
    → st.info.module_size ≡ old.info.module_size
    → length st.bytes ≡ old.info.module_size
    → IsWithin c
    → length st.bytes ≤ c.limits.max_completed_bytes
    → over_completed (settle id st c) ≡ false
settle-fits id st old c found waits done same full w fits =
    let (b, l, stopped) = settle-Stopped id st old c found waits done same full w in
    let c' = settle id st c in
    let payload = b.payload in
    let room : length st.bytes ≤ c'.limits.max_completed_bytes = rw l fits in
    elim stopped [
      | inl enough ↦ enough
      | inr none_left ↦
          let alone = only_one id c'.modules none_left in
          elim (Option-cases (lookup id c'.modules)) [
            | inl absent ↦
                let gone : remove id c'.modules ≡ c'.modules =
                  remove_absent id c'.modules (has-eq_false id c'.modules absent) in
                let empty : weight payload_of c'.modules ≡ 0 = rw (← gone) alone in ground arith
            | inr (last, q) ↦
                let whole = weight-remove payload_of id last c'.modules b.unique q in
                let same_state : last ≡ st = settle-lookup id st last c q in
                let p : payload_of last ≡ length st.bytes = rw same_state (rw done refl) in
                ground arith
          ]
    ]
  where
    settle-lookup :
        (id : ℕ) (st last : ModuleState) (c : Carousel)
        → lookup id (settle id st c).modules ≡ some last
        → last ≡ st
    settle-lookup id st last c q =
        let paid : Carousel = record c {
          in_flight_bytes = sub64 c.in_flight_bytes st.info.module_size;
          completed_bytes = add64 c.completed_bytes st.info.module_size;
        } in
        let moved = put id st paid in
        let before : lookup id moved.modules ≡ some last =
          unfold settle in
          evict_while-Shrunk (length moved.modules) over_completed (is_evictable id) moved id last
            q in
        let law = lookup-insert id id st c.modules in let e = ==_refl id in ground arith

-- A block of the source that is not the last is stored.
pub observe_ddb-more :
    (ddb : Ddb) (st : ModuleState) (c : Carousel)
    → lookup ddb.module_id c.modules ≡ some st
    → is_foreign ddb st ≡ false
    → ltb (store_block ddb st).count (length (store_block ddb st).received) ≡ true
    → (observe_ddb ddb c).0 ≡ put ddb.module_id (store_block ddb st) c
unfolding observe_ddb observe_state
observe_ddb-more ddb st c found mine more =
    rw (found, observe_ddb) (rw (mine, observe_state) (rw more refl))

-- The last one finishes the module.
pub observe_ddb-last :
    (ddb : Ddb) (st : ModuleState) (c : Carousel)
    → lookup ddb.module_id c.modules ≡ some st
    → is_foreign ddb st ≡ false
    → ltb (store_block ddb st).count (length (store_block ddb st).received) ≡ false
    → over_completed
        (settle ddb.module_id (record (store_block ddb st) { completed = true; received = [] }) c)
      ≡ false
    → (observe_ddb ddb c).1.finished
      ≡ some (module_of (record (store_block ddb st) { completed = true; received = [] }))
unfolding observe_ddb observe_state complete
observe_ddb-last ddb st c found mine last fits =
    rw (found, observe_ddb) (rw (mine, observe_state) (rw last (rw (fits, complete) refl)))
