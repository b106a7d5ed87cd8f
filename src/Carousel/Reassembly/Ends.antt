-- ===== src/Carousel/Reassembly/Ends.antt =====
-- A module whose blocks all arrive is finished.
use mahiron.Base.{
  ℕ, ◌<◌, ◌≤◌, ◌≡◌, refl, sym, ap, ◌∙◌, true, false, List, [], ◌∷◌, All, length, ltb, ◌==◌, Option,
  none, some, arith, Bool-cases, inl, inr, ==_refl,
}
use mahiron.Base.Assoc.{lookup, lookup-insert}
use mahiron.Carousel.{ModuleState, Module, Ddb, Carousel}
use mahiron.Carousel.Blocks.{store_block, observe_ddb, module_of}
use mahiron.Carousel.Weight.{Each-lookup}
use mahiron.Carousel.Budget.{IsState}
use mahiron.Carousel.Complete.{observe_ddb-Keeps}
use mahiron.Carousel.Reassembly.Run.{
  Source, IsHonest, Carries, store_block-Awaits, receive, collect, receive-payload,
}
use mahiron.Carousel.Reassembly.Last.{
  IsBlockOf, Waits, has_block, Supplies, block-IsOwn, IsOwn-is_foreign, block-IsHonest,
  store_block-Supplies, supplied, settle-fits, observe_ddb-more, observe_ddb-last,
}

observe_ddb-Waits :
    (src : Source) (ddb : Ddb) (st : ModuleState) (c : Carousel)
    → IsBlockOf src ddb
    → Waits src st c
    → ltb (store_block ddb st).count (length (store_block ddb st).received) ≡ true
    → Waits src (store_block ddb st) (observe_ddb ddb c).0
observe_ddb-Waits src ddb st c b w more =
    let st' = store_block ddb st in
    let o = block-IsOwn src ddb st b w.open_ w.awaits in
    let mine = IsOwn-is_foreign ddb st w.awaits.positive o in
    let here : lookup ddb.module_id c.modules ≡ some st = rw b.same_module w.found in
    let stored = observe_ddb-more ddb st c here mine more in
    let (within, limits) = observe_ddb-Keeps ddb c w.within in
    record {
      found =
          let law = lookup-insert ddb.module_id src.module_id st' c.modules in
          let same : (ddb.module_id == src.module_id) ≡ true =
            rw b.same_module (==_refl src.module_id) in
          ap (λ d. lookup src.module_id d.modules) stored ∙ law ∙ rw same refl;
      open_ = unfold store_block in w.open_;
      awaits = store_block-Awaits src ddb st o (block-IsHonest src ddb b) b.same_module w.awaits;
      missing = ground arith;
      within = within;
      fits = rw limits w.fits;
    }

Waits-Carries : (src : Source) (st : ModuleState) (c : Carousel) → Waits src st c → Carries src c
Waits-Carries src st c w st' q waits =
    let e : some st ≡ some st' = sym w.found ∙ q in
    let same_state : st ≡ st' = cc in rw (← same_state) w.awaits

length-collect :
    (id other : ℕ) (finished : Option Module) (found : List Module)
    → length found ≤ length (collect id other finished found)
unfolding collect
length-collect id other none found = omega arith
length-collect id other (some m) found = ground arith

collect-finished :
    (id other : ℕ) (finished : Option Module) (m : Module) (found : List Module)
    → other ≡ id
    → finished ≡ some m
    → 0 < length (collect id other finished found)
unfolding collect
collect-finished id other none m found e q = cc
collect-finished id other (some m') m found e q =
    let same : (other == id) ≡ true = rw e (==_refl id) in rw same (omega arith)

observe_ddb-finished :
    (src : Source) (ddb : Ddb) (st : ModuleState) (c : Carousel)
    → IsBlockOf src ddb
    → Waits src st c
    → ltb (store_block ddb st).count (length (store_block ddb st).received) ≡ false
    → (observe_ddb ddb c).1.finished
      ≡ some (module_of (record (store_block ddb st) { completed = true; received = [] }))
observe_ddb-finished src ddb st c b w last =
    let st' = store_block ddb st in
    let done : ModuleState = record st' { completed = true; received = [] } in
    let o = block-IsOwn src ddb st b w.open_ w.awaits in
    let mine = IsOwn-is_foreign ddb st w.awaits.positive o in
    let here : lookup ddb.module_id c.modules ≡ some st = rw b.same_module w.found in
    let a = store_block-Awaits src ddb st o (block-IsHonest src ddb b) b.same_module w.awaits in
    let s = Each-lookup IsState ddb.module_id c.modules w.within.0.each here in
    let filled = s.filled w.open_ in
    let sized = w.awaits.part.sized in
    let sized' = a.part.sized in
    let fits = w.fits in
    observe_ddb-last ddb st c here mine last (
      settle-fits ddb.module_id done st c here w.open_ refl (unfold store_block in refl)
        (omega arith) w.within (omega arith))

receive-some :
    (src : Source) (ddbs : List Ddb) (st : ModuleState) (c : Carousel)
    → Waits src st c
    → All (IsBlockOf src) ddbs
    → Supplies ddbs st
    → 0 < length (receive src.module_id ddbs c)
unfolding receive has_block
receive-some src [] st c w a s =
    let missing = w.missing in
    let counted = w.awaits.part.counted in
    let full = supplied st.received (λ n h. let e = s n h in ground arith) in absurd (omega arith)
receive-some src (ddb ∷ rest) st c w (b, a) s =
    let r = observe_ddb ddb c in
    let later = receive src.module_id rest r.0 in
    let o = block-IsOwn src ddb st b w.open_ w.awaits in
    elim (Bool-cases (ltb (store_block ddb st).count (length (store_block ddb st).received))) [
      | inl more ↦
          let found =
            receive-some src rest (store_block ddb st) r.0 (observe_ddb-Waits src ddb st c b w more)
              a (store_block-Supplies ddb rest st o s) in
          let grows = length-collect src.module_id ddb.module_id r.1.finished later in omega arith
      | inr last ↦
          collect-finished src.module_id ddb.module_id r.1.finished _ later b.same_module
            (observe_ddb-finished src ddb st c b w last)
    ]

block-All : (src : Source) (ddbs : List Ddb) → All (IsBlockOf src) ddbs → All (IsHonest src) ddbs
block-All src [] a = tt
block-All src (ddb ∷ rest) a = (block-IsHonest src ddb a.0, block-All src rest a.1)

-- On a carousel within its budgets that waits for a module whose payload the budget of completed modules
-- allows, any list of the module's blocks, in any order and with repetitions, that has each block which
-- is still missing finishes the module, and with the payload that was cut into the blocks.
pub receive_complete :
    (src : Source) (ddbs : List Ddb) (st : ModuleState) (c : Carousel)
    → Waits src st c
    → All (IsBlockOf src) ddbs
    → Supplies ddbs st
    → (0 < length (receive src.module_id ddbs c))
      × All (λ m. m.bytes ≡ src.payload) (receive src.module_id ddbs c)
receive_complete src ddbs st c w a s = (
  receive-some src ddbs st c w a s,
  receive-payload src ddbs c (Waits-Carries src st c w) (block-All src ddbs a),
)
