-- ===== src/Carousel.antt =====
-- ts/dsmcc_carousel.go: the DSM-CC object carousel of a receiver. DII messages announce modules,
-- DDB messages bring their blocks, and two budgets bound the memory that modules take.
-- A map of the source is an association list; where the source ranges over a map the order of the
-- list stands for the order of the runtime. A uint64 counter is a number below 2 ^ 64.
pub mod Weight
pub mod Blocks
pub mod Budget
pub mod Eviction
pub mod Room
pub mod Announce
pub mod Observe
pub mod Complete
pub mod Release
pub mod Splice
pub mod Reassembly
pub mod Messages
pub mod Metadata
mod Examples
pub mod Steps
use mahiron.Base.{
  ℕ, zero, suc, ◌+◌, ◌-◌, ◌*◌, ◌/◌, ◌%◌, ◌^◌, Bool, true, false, not, ◌&&◌, ◌||◌, List, [], ◌∷◌,
  ◌++◌, map, length, take, drop, replicate, set, get_or, ltb, leb, ◌==◌, ◌/=◌, if◌then◌else◌,
  Option, none, some,
}
use mahiron.Base.Assoc.{Map, lookup, insert, remove, has}
use mahiron.Ts.Words.{Bytes}

pub record Limits : Type 0 where
  pub max_module_size : ℕ
  pub max_completed_bytes : ℕ
  pub max_in_flight_bytes : ℕ

unfoldable pub with_defaults : Limits → Limits
with_defaults l = record {
  max_module_size = if l.max_module_size == 0 then 1040896 else l.max_module_size;
  max_completed_bytes =
      if l.max_completed_bytes == 0 then 64 * 1024 * 1024 else l.max_completed_bytes;
  max_in_flight_bytes =
      if l.max_in_flight_bytes == 0 then 16 * 1024 * 1024 else l.max_in_flight_bytes;
}

-- One module of a DII, ts/logo_common.go.
pub record ModuleInfo : Type 0 where
  pub module_id : ℕ
  pub module_size : ℕ
  pub version : ℕ
  pub info : Bytes

pub record Dii : Type 0 where
  pub download_id : ℕ
  pub block_size : ℕ
  pub modules : List ModuleInfo
  pub private_data : Bytes

pub record Ddb : Type 0 where
  pub download_id : ℕ
  pub module_id : ℕ
  pub module_version : ℕ
  pub block_number : ℕ
  pub bytes : Bytes

pub record Module : Type 0 where
  pub download_id : ℕ
  pub module_id : ℕ
  pub version : ℕ
  pub size : ℕ
  pub info : Bytes
  pub bytes : Bytes
  pub generation : ℕ

pub data DdbResult : Type 0 where
  ignored block duplicate completed : DdbResult

pub data Reason : Type 0 where
  module_size_zero block_size_zero module_size_limit_exceeded in_flight_budget_exceeded : Reason

pub record ModuleState : Type 0 where
  pub info : ModuleInfo
  pub download_id : ℕ
  pub block_size : ℕ
  pub bytes : Bytes
  pub received : List Bool
  pub count : ℕ
  pub completed : Bool
  pub generation : ℕ

pub record Carousel : Type 0 where
  pub limits : Limits
  pub modules : Map ModuleState
  pub completed_bytes : ℕ
  pub in_flight_bytes : ℕ
  pub generation : ℕ
  pub rejected : Map (ModuleInfo × Reason)

unfoldable pub new_carousel : Limits → Carousel
new_carousel limits = record {
  limits = with_defaults limits;
  modules = [];
  completed_bytes = 0;
  in_flight_bytes = 0;
  generation = 0;
  rejected = [];
}

-- `+=` and `-=` on a uint64.
unfoldable pub add64 : ℕ → ℕ → ℕ
add64 a b = (a + b) % 2 ^ 64

unfoldable pub sub64 : ℕ → ℕ → ℕ
sub64 a b = (a + 2 ^ 64 - b) % 2 ^ 64

-- What `remove` does for a state that it has found.
unfoldable pub forget : ℕ → ModuleState → Carousel → Carousel
forget id st c =
    if st.completed
    then record c {
      completed_bytes = sub64 c.completed_bytes (length st.bytes);
      modules = remove id c.modules;
    }
    else record c {
      in_flight_bytes = sub64 c.in_flight_bytes st.info.module_size;
      modules = remove id c.modules;
    }

unfoldable pub remove_module : ℕ → Carousel → Carousel
remove_module id c = elim (lookup id c.modules) [ none ↦ c | some st ↦ forget id st c ]

-- The candidate with the lowest generation; `fits` tells which states are candidates.
unfoldable pub older : Option (ℕ × ℕ) → ℕ → ModuleState → Option (ℕ × ℕ)
older none id st = some (id, st.generation)
older (some (best, generation)) id st =
    if ltb st.generation generation then some (id, st.generation) else some (best, generation)

unfoldable pub oldest : (ℕ → ModuleState → Bool) → Option (ℕ × ℕ) → Map ModuleState → Option (ℕ × ℕ)
oldest fits best [] = best
oldest fits best ((id, st) ∷ m) = oldest fits (if fits id st then older best id st else best) m

-- Evicts the oldest candidate; the flag says whether there was one.
unfoldable pub evict_oldest : (ℕ → ModuleState → Bool) → Carousel → Carousel × Bool
evict_oldest fits c = elim (oldest fits none c.modules) [
  | none ↦ (c, false)
  | some (id, generation) ↦ (remove_module id c, true)
]

abbrev pub is_in_flight : ℕ → ModuleState → Bool
is_in_flight id st = not st.completed

abbrev pub is_evictable : ℕ → ℕ → ModuleState → Bool
is_evictable except id st = st.completed && (ltb 0 (length st.bytes) && not (id == except))

-- `for over(c) && c.evictOldest…() {}`. A round takes a module away, so as many rounds as there are
-- modules are enough.
unfoldable pub evict_while : ℕ → (Carousel → Bool) → (ℕ → ModuleState → Bool) → Carousel → Carousel
evict_while zero over fits c = c
evict_while (suc fuel) over fits c = elim (over c) [
  | false ↦ c
  | true ↦
      let (c', found) = evict_oldest fits c in
      elim found [ true ↦ evict_while fuel over fits c' | false ↦ c' ]
]

abbrev pub over_in_flight : ℕ → Carousel → Bool
over_in_flight size c = ltb c.limits.max_in_flight_bytes (add64 c.in_flight_bytes size)

abbrev pub over_completed : Carousel → Bool
over_completed c = ltb c.limits.max_completed_bytes c.completed_bytes

unfoldable pub reject : ModuleInfo → Reason → Carousel → Carousel
reject item reason c = record c { rejected = insert item.module_id (item, reason) c.rejected }

unfoldable pub same_announcement : Dii → ModuleInfo → ModuleState → Bool
same_announcement dii item st =
    st.download_id == dii.download_id
    && (st.info.version == item.version
        && (st.info.module_size == item.module_size && st.block_size == dii.block_size))

unfoldable pub is_current : Dii → ModuleInfo → Option ModuleState → Bool
is_current dii item none = false
is_current dii item (some st) = same_announcement dii item st

-- `(size + blockSize - 1) / blockSize` on a uint32.
unfoldable pub block_count : ℕ → ℕ → ℕ
block_count size block_size = (size + block_size + 2 ^ 32 - 1) % 2 ^ 32 / block_size

unfoldable pub fresh_state : Dii → ModuleInfo → ℕ → ModuleState
fresh_state dii item generation = record {
  info = item;
  download_id = dii.download_id;
  block_size = dii.block_size;
  bytes = replicate item.module_size 0;
  received = replicate (block_count item.module_size dii.block_size) false;
  count = 0;
  completed = false;
  generation = generation;
}

-- The allocation of a module that passes the budgets.
unfoldable pub allocate : Dii → ModuleInfo → Carousel → Carousel
allocate dii item c =
    let generation = add64 c.generation 1 in
    record c {
      generation = generation;
      modules = insert item.module_id (fresh_state dii item generation) c.modules;
      in_flight_bytes = add64 c.in_flight_bytes item.module_size;
    }

-- The part of the loop's body behind the eviction.
unfoldable pub admit : Dii → ModuleInfo → Carousel → Carousel × Bool
admit dii item c =
    if over_in_flight item.module_size c
    then (reject item in_flight_budget_exceeded c, false)
    else (allocate dii item c, true)

-- One round of the loop over the modules of a DII; the flag says that the module is accepted.
unfoldable pub observe_module : Dii → ModuleInfo → Carousel → Carousel × Bool
observe_module dii item c =
    let id = item.module_id in
    if item.module_size == 0
    then (reject item module_size_zero (remove_module id c), false)
    else if dii.block_size == 0
    then (reject item block_size_zero (remove_module id c), false)
    else if ltb c.limits.max_module_size item.module_size
    then (reject item module_size_limit_exceeded (remove_module id c), false)
    else let c' = record c { rejected = remove id c.rejected } in
      if is_current dii item (lookup id c'.modules)
      then (c', true)
      else let c'' = remove_module id c' in
        if ltb c''.limits.max_in_flight_bytes item.module_size
        then (reject item in_flight_budget_exceeded c'', false)
        else admit dii item
            (evict_while (length c''.modules) (over_in_flight item.module_size) is_in_flight c'')

unfoldable pub observe_modules :
    Dii → List ModuleInfo → Carousel → List ModuleInfo → Carousel × List ModuleInfo
observe_modules dii [] c accepted = (c, accepted)
observe_modules dii (item ∷ rest) c accepted =
    let (c', yes_) = observe_module dii item c in
    observe_modules dii rest c' (if yes_ then accepted ++ item ∷ [] else accepted)

unfoldable pub seen : ℕ → List ModuleInfo → Bool
seen id [] = false
seen id (item ∷ rest) = if item.module_id == id then true else seen id rest

-- The loops at the end: what this DII does not announce is forgotten.
unfoldable pub remove_unseen : List ModuleInfo → Map ModuleState → Carousel → Carousel
remove_unseen announced [] c = c
remove_unseen announced ((id, st) ∷ m) c =
    remove_unseen announced m (if seen id announced then c else remove_module id c)

unfoldable pub keep_seen : List ModuleInfo → Map (ModuleInfo × Reason) → Map (ModuleInfo × Reason)
keep_seen announced [] = []
keep_seen announced ((id, r) ∷ m) =
    if seen id announced then (id, r) ∷ keep_seen announced m else keep_seen announced m

unfoldable pub observe_dii : Dii → Carousel → Carousel × List ModuleInfo
observe_dii dii c =
    let (c', accepted) = observe_modules dii dii.modules c [] in
    let c'' = remove_unseen dii.modules c'.modules c' in
    (record c'' { rejected = keep_seen dii.modules c''.rejected }, accepted)
