-- ===== src/Carousel/Reassembly/Run.antt =====
-- A run of DDBs on a carousel: what it finishes of a module is the payload that was broadcast.
use mahiron.Base.{
  ℕ, zero, suc, ◌<◌, ◌≡◌, refl, sym, ap, ◌∙◌, Bool, true, false, List, [], ◌∷◌, All, length, ltb,
  ◌==◌, if◌then◌else◌, Option, none, some, arith, Bool-cases, Option-cases, inl, inr, ==_iff,
}
use mahiron.Base.Assoc.{lookup, lookup-insert, lookup-remove}
use mahiron.Ts.Words.{Bytes}
use mahiron.Carousel.{
  ModuleState, Module, Ddb, Carousel, remove_module, evict_oldest, evict_while, oldest,
  over_completed, is_evictable, add64, sub64,
}
use mahiron.Carousel.Blocks.{
  put, is_foreign, store_block, settle, complete, observe_state, observe_ddb, module_of, Observed,
}
use mahiron.Carousel.Complete.{IsOwn, is_foreign-IsOwn}
use mahiron.Carousel.Eviction.{remove_module-modules}
use mahiron.Carousel.Reassembly.{piece, IsPartOf, store_block-IsPartOf, full-payload}

-- A module as it is broadcast.
pub record Source : Type 0 where
  pub download_id : ℕ
  pub module_id : ℕ
  pub version : ℕ
  pub block_size : ℕ
  pub payload : Bytes

-- A DDB of this module carries the block of its number; nothing is asked of the others.
abbrev pub IsHonest : Source → Ddb → Type 0
IsHonest src ddb =
    ddb.module_id ≡ src.module_id
    → ddb.download_id ≡ src.download_id
    → ddb.module_version ≡ src.version
    → ddb.bytes ≡ piece src.payload src.block_size ddb.block_number

-- What waits under the module's ID waits for this source, and holds blocks of it only.
pub record Awaits (src : Source) (st : ModuleState) : Type 0 where
  pub part : IsPartOf src.payload st
  pub same_size : st.block_size ≡ src.block_size
  pub positive : 0 < st.block_size
  pub same_download : st.download_id ≡ src.download_id
  pub same_version : st.info.version ≡ src.version

abbrev pub Carries : Source → Carousel → Type 0
Carries src c =
    (st : ModuleState)
    → lookup src.module_id c.modules ≡ some st
    → st.completed ≡ false
    → Awaits src st

-- Nothing is there that was not there before.
abbrev pub Shrunk : Carousel → Carousel → Type 0
Shrunk c' c =
    (k : ℕ) (st : ModuleState) → lookup k c'.modules ≡ some st → lookup k c.modules ≡ some st

remove_module-Shrunk : (id : ℕ) (c : Carousel) → Shrunk (remove_module id c) c
remove_module-Shrunk id c k st h =
    let e = ap (lookup k) (remove_module-modules id c) ∙ lookup-remove id k c.modules in
    ground (arith, e)

evict_oldest-Shrunk :
    (fits : ℕ → ModuleState → Bool) (c : Carousel) → Shrunk (evict_oldest fits c).0 c
unfolding evict_oldest
evict_oldest-Shrunk fits c = elim (Option-cases (oldest fits none c.modules)) [
  | inl n ↦ rw (n, evict_oldest) (λ k st h. h)
  | inr ((id, generation), q) ↦ rw (q, evict_oldest) (remove_module-Shrunk id c)
]

pub evict_while-Shrunk :
    (fuel : ℕ) (over : Carousel → Bool) (fits : ℕ → ModuleState → Bool) (c : Carousel)
    → Shrunk (evict_while fuel over fits c) c
unfolding evict_while
evict_while-Shrunk zero over fits c = λ k st h. h
evict_while-Shrunk (suc fuel) over fits c = elim (Bool-cases (over c)) [
  | inr within ↦ rw (within, evict_while) (λ k st h. h)
  | inl over_ ↦ elim (Bool-cases (evict_oldest fits c).1) [
    | inl found ↦
        rw (over_, evict_while)
          (rw found (λ k st h.
            evict_oldest-Shrunk fits c k st
              (evict_while-Shrunk fuel over fits (evict_oldest fits c).0 k st h)))
    | inr none_left ↦ rw (over_, evict_while) (rw none_left (evict_oldest-Shrunk fits c))
  ]
]

pub shrink-Carries : (src : Source) (c' c : Carousel) → Shrunk c' c → Carries src c → Carries src c'
shrink-Carries src c' c s h st q waits = h st (s src.module_id st q) waits

-- A state that is put in place: it is the module's, and awaits the source or waits no more.
pub put-Carries :
    (src : Source) (id : ℕ) (st : ModuleState) (c : Carousel)
    → (id ≡ src.module_id → st.completed ≡ false → Awaits src st)
    → Carries src c
    → Carries src (put id st c)
put-Carries src id st c own h found q waits =
    let law = lookup-insert id src.module_id st c.modules in
    elim (Bool-cases (id == src.module_id)) [
      | inl same ↦
          let e : some st ≡ some found = sym (law ∙ rw same refl) ∙ q in
          let same_state : st ≡ found = cc in
          rw (← same_state) (own ((==_iff id src.module_id).0 same) (rw same_state waits))
      | inr other ↦ h found (sym (law ∙ rw other refl) ∙ q) waits
    ]

-- What a step leaves behind: the source is still awaited, and a module that is finished by a block of
-- the source's ID has its payload.
abbrev Good : Source → Ddb → Carousel × Observed → Type 0
Good src ddb r =
    Carries src r.0
    × ((m : Module) → ddb.module_id ≡ src.module_id → r.1.finished ≡ some m → m.bytes ≡ src.payload)

settle-Carries :
    (src : Source) (id : ℕ) (st : ModuleState) (c : Carousel)
    → st.completed ≡ true
    → Carries src c
    → Carries src (settle id st c)
unfolding settle
settle-Carries src id st c done h =
    let paid : Carousel = record c {
      in_flight_bytes = sub64 c.in_flight_bytes st.info.module_size;
      completed_bytes = add64 c.completed_bytes st.info.module_size;
    } in
    let moved = put id st paid in
    shrink-Carries src (settle id st c) moved
      (evict_while-Shrunk (length moved.modules) over_completed (is_evictable id) moved)
      (put-Carries src id st paid (λ e waits. cc) h)

complete-Good :
    (src : Source) (ddb : Ddb) (st : ModuleState) (c : Carousel)
    → (ddb.module_id ≡ src.module_id → st.bytes ≡ src.payload)
    → Carries src c
    → Good src ddb (complete ddb.module_id st c)
unfolding complete module_of
complete-Good src ddb st c whole h =
    let st' : ModuleState = record st { completed = true; received = [] } in
    let c' = settle ddb.module_id st' c in
    let carried = settle-Carries src ddb.module_id st' c refl h in
    elim (Bool-cases (over_completed c')) [
      | inl over ↦
          rw (over, complete)
            (
              shrink-Carries src (remove_module ddb.module_id c') c'
                  (remove_module-Shrunk ddb.module_id c') carried,
              λ m e q. cc,
            )
      | inr fits ↦
          rw (fits, complete) (carried, λ m e q. ap (λ x. x.bytes) (sym (finished_is q)) ∙ whole e)
    ]
  where
    finished_is : {a b : Module} → some a ≡ some b → a ≡ b
    finished_is q = cc

pub store_block-Awaits :
    (src : Source) (ddb : Ddb) (st : ModuleState)
    → IsOwn ddb st
    → IsHonest src ddb
    → ddb.module_id ≡ src.module_id
    → Awaits src st
    → Awaits src (store_block ddb st)
unfolding store_block
store_block-Awaits src ddb st o honest e a = record {
  part = store_block-IsPartOf src.payload ddb st a.part o (
      honest e (sym o.download ∙ a.same_download) (sym o.version ∙ a.same_version)
      ∙ ap (λ size. piece src.payload size ddb.block_number) (sym a.same_size));
  same_size = a.same_size;
  positive = a.positive;
  same_download = a.same_download;
  same_version = a.same_version;
}

observe_state-Good :
    (src : Source) (ddb : Ddb) (st : ModuleState) (c : Carousel)
    → IsHonest src ddb
    → lookup ddb.module_id c.modules ≡ some st
    → Carries src c
    → Good src ddb (observe_state ddb st c)
unfolding observe_state
observe_state-Good src ddb st c honest found h = elim (Bool-cases (is_foreign ddb st)) [
  | inl foreign ↦ rw (foreign, observe_state) (h, λ m e q. cc)
  | inr mine ↦
      let o = is_foreign-IsOwn ddb st mine in
      let st' = store_block ddb st in
      let stored : ddb.module_id ≡ src.module_id → Awaits src st' =
        λ e. store_block-Awaits src ddb st o honest e (h st (rw (← e) found) o.waits) in
      rw (mine, observe_state)
        (elim (Bool-cases (ltb st'.count (length st'.received))) [
          | inl more ↦
              rw more (put-Carries src ddb.module_id st' c (λ e waits. stored e) h, λ m e q. cc)
          | inr all_there ↦ rw all_there (
              complete-Good src ddb st' c
                (λ e.
                  let a = stored e in full-payload src.payload st' a.part a.positive (ground arith))
                h)
        ])
]

-- A DDB keeps what the carousel holds of a source a part of its payload, and finishes no other.
observe_ddb-Good :
    (src : Source) (ddb : Ddb) (c : Carousel)
    → IsHonest src ddb
    → Carries src c
    → Good src ddb (observe_ddb ddb c)
unfolding observe_ddb
observe_ddb-Good src ddb c honest h = elim (Option-cases (lookup ddb.module_id c.modules)) [
  | inl absent ↦ rw (absent, observe_ddb) (h, λ m e q. cc)
  | inr (st, found) ↦ rw (found, observe_ddb) (observe_state-Good src ddb st c honest found h)
]

-- A receiver that collects what DDBs of one module ID finish.
unfoldable pub collect : ℕ → ℕ → Option Module → List Module → List Module
collect id other none found = found
collect id other (some m) found = if other == id then m ∷ found else found

unfoldable pub receive : ℕ → List Ddb → Carousel → List Module
receive id [] c = []
receive id (ddb ∷ rest) c =
    let (c', seen) = observe_ddb ddb c in
    collect id ddb.module_id seen.finished (receive id rest c')

collect-All :
    (src : Source) (id : ℕ) (finished : Option Module) (found : List Module)
    → ((m : Module) → id ≡ src.module_id → finished ≡ some m → m.bytes ≡ src.payload)
    → All (λ m. m.bytes ≡ src.payload) found
    → All (λ m. m.bytes ≡ src.payload) (collect src.module_id id finished found)
unfolding collect
collect-All src id none found h a = a
collect-All src id (some m) found h a = elim (Bool-cases (id == src.module_id)) [
  | inl same ↦ rw (same, collect) (h m ((==_iff id src.module_id).0 same) refl, a)
  | inr other ↦ rw (other, collect) a
]

-- On a carousel where what waits under a source's module ID is announced by the source and holds blocks
-- of its payload only, any sequence of DDBs, with blocks lost, repeated or out of order, with blocks of
-- other modules, versions and downloads between them, finishes this module with the source's payload and
-- no other bytes, if each DDB with the source's download, module and version carries the block of its number.
pub receive-payload :
    (src : Source) (ddbs : List Ddb) (c : Carousel)
    → Carries src c
    → All (IsHonest src) ddbs
    → All (λ m. m.bytes ≡ src.payload) (receive src.module_id ddbs c)
unfolding receive
receive-payload src [] c h a = tt
receive-payload src (ddb ∷ rest) c h a =
    let (h', finished) = observe_ddb-Good src ddb c a.0 h in
    collect-All src ddb.module_id (observe_ddb ddb c).1.finished _ finished
      (receive-payload src rest (observe_ddb ddb c).0 h' a.1)
