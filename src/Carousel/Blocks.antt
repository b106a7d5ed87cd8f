-- ===== src/Carousel/Blocks.antt =====
-- ts/dsmcc_carousel.go: `ObserveDDBWithResult`, `Module`, `ModuleInfo`, `ReleaseCompletedPayload`
-- and `Restore`. The source changes a state through its pointer in the map; here the changed state
-- is written back under its key.
use mahiron.Base.{
  ℕ, ◌+◌, ◌-◌, ◌*◌, ◌%◌, ◌^◌, Bool, true, false, ◌&&◌, ◌||◌, [], ◌++◌, length, take, drop, set,
  get_or, ltb, leb, ◌==◌, ◌/=◌, if◌then◌else◌, Option, none, some, min,
}
use mahiron.Base.Assoc.{lookup, insert}
use mahiron.Ts.Words.{Bytes}
use mahiron.Carousel.{
  Carousel, ModuleInfo, ModuleState, Module, Ddb, DdbResult, ignored, block, duplicate, completed,
  add64, sub64, remove_module, evict_while, is_evictable, over_completed, block_count,
}

-- `state.module()`
unfoldable pub module_of : ModuleState → Module
module_of st = record {
  download_id = st.download_id;
  module_id = st.info.module_id;
  version = st.info.version;
  size = st.info.module_size;
  info = st.info.info;
  bytes = st.bytes;
  generation = st.generation;
}

-- `copy(bytes[off:end], from)` where `end - off` bytes of `from` are there.
unfoldable pub splice : Bytes → ℕ → ℕ → Bytes → Bytes
splice bytes off end_ from = take off bytes ++ (take (end_ - off) from ++ drop end_ bytes)

-- The state of a module is put back in the map.
abbrev pub put : ℕ → ModuleState → Carousel → Carousel
put id st c = record c { modules = insert id st c.modules }

-- What a DDB does: the module that it completes, its result, and whether the budget is exceeded.
pub record Observed : Type 0 where
  pub finished : Option Module
  pub result : DdbResult
  pub over_budget : Bool

abbrev pub report : DdbResult → Observed
report result = record { finished = none; result = result; over_budget = false }

-- The guards: the block is none of an announced module that waits for blocks.
unfoldable pub is_foreign : Ddb → ModuleState → Bool
is_foreign ddb st =
    st.completed
    || (st.download_id /= ddb.download_id
        || (st.info.version /= ddb.module_version
            || (st.block_size == 0
                || (leb (length st.received) ddb.block_number
                    || leb (length st.bytes) (ddb.block_number * st.block_size)))))

-- The block is marked and copied in.
unfoldable pub store_block : Ddb → ModuleState → ModuleState
store_block ddb st =
    let off = ddb.block_number * st.block_size in
    let end_ = min (off + length ddb.bytes) (length st.bytes) in
    let known = get_or st.received ddb.block_number false in
    record st {
      received = set st.received ddb.block_number true;
      count = if known then st.count else st.count + 1;
      bytes = splice st.bytes off end_ ddb.bytes;
    }

-- A completed state moves from one budget to the other, and older completed modules make room.
unfoldable pub settle : ℕ → ModuleState → Carousel → Carousel
settle id st c =
    let c' = put id st (record c {
      in_flight_bytes = sub64 c.in_flight_bytes st.info.module_size;
      completed_bytes = add64 c.completed_bytes st.info.module_size;
    }) in
    evict_while (length c'.modules) over_completed (is_evictable id) c'

unfoldable pub complete : ℕ → ModuleState → Carousel → Carousel × Observed
complete id st c =
    let st' = record st { completed = true; received = [] } in
    let c' = settle id st' c in
    if over_completed c'
    then (remove_module id c', record { finished = none; result = ignored; over_budget = true })
    else (c', record { finished = some (module_of st'); result = completed; over_budget = false })

unfoldable pub observe_state : Ddb → ModuleState → Carousel → Carousel × Observed
observe_state ddb st c =
    if is_foreign ddb st
    then (c, report ignored)
    else let st' = store_block ddb st in
      if ltb st'.count (length st'.received)
      then (
        put ddb.module_id st' c,
        report (if get_or st.received ddb.block_number false then duplicate else block),
      )
      else complete ddb.module_id st' c

unfoldable pub observe_ddb : Ddb → Carousel → Carousel × Observed
observe_ddb ddb c = elim (lookup ddb.module_id c.modules) [
  | none ↦ (c, report ignored)
  | some st ↦ observe_state ddb st c
]

-- `uint32(len(b))`
abbrev pub len32 : Bytes → ℕ
len32 b = length b % 2 ^ 32

-- A completed state whose payload is held.
abbrev pub holds : ModuleState → Bool
holds st = st.completed && len32 st.bytes == st.info.module_size

unfoldable pub get_module : ℕ → Carousel → Option Module
get_module id c = elim (lookup id c.modules) [
  | none ↦ none
  | some st ↦ if holds st then some (module_of st) else none
]

unfoldable pub module_info : ℕ → Carousel → Option ModuleInfo
module_info id c = elim (lookup id c.modules) [ none ↦ none | some st ↦ some st.info ]

unfoldable pub release_state : ℕ → ModuleState → Carousel → Carousel × Bool
release_state id st c =
    if holds st
    then (
      put id (record st { bytes = [] })
          (record c { completed_bytes = sub64 c.completed_bytes (length st.bytes) }),
      true,
    )
    else (c, false)

unfoldable pub release_completed_payload : ℕ → Carousel → Carousel × Bool
release_completed_payload id c = elim (lookup id c.modules) [
  | none ↦ (c, false)
  | some st ↦ release_state id st c
]

unfoldable pub restore_state : Module → ModuleState → Carousel → Carousel × Bool
restore_state item st c =
    if st.completed
      || (st.download_id /= item.download_id
          || (st.info.version /= item.version
              || (st.info.module_size /= item.size || len32 item.bytes /= item.size)))
    then (c, false)
    else let st' = record st {
      bytes = item.bytes;
      received = [];
      count = block_count st.info.module_size st.block_size;
      completed = true;
    } in
      let c' = settle item.module_id st' c in
      if over_completed c' then (remove_module item.module_id c', false) else (c', true)

unfoldable pub restore : Module → Carousel → Carousel × Bool
restore item c = elim (lookup item.module_id c.modules) [
  | none ↦ (c, false)
  | some st ↦ restore_state item st c
]
