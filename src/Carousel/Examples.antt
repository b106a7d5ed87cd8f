-- ===== src/Carousel/Examples.antt =====
-- Runs of the carousel at concrete DIIs and DDBs.
use mahiron.Base.{ℕ, ◌≤◌, ◌<◌, ◌≡◌, List, [], ◌∷◌, All, length, arith}
use mahiron.Carousel.{
  Limits, Carousel, ModuleInfo, Dii, Ddb, with_defaults, new_carousel, observe_module, observe_dii,
  evict_while, evict_oldest, over_in_flight, is_in_flight,
}
use mahiron.Base.Assoc.{remove}
use mahiron.Carousel.Blocks.{observe_ddb}
use mahiron.Carousel.Weight.{weight, flight_of, payload_of}
use mahiron.Carousel.Budget.{IsBalanced, IsWithin, Shrinks}
use mahiron.Carousel.Eviction.{Stopped, Evicted, evict_while-Stopped, evict_oldest-Evicted}
use mahiron.Carousel.Announce.{IsInfo, Announced, observe_module-Announced}
use mahiron.Base.Result.{Returns, Ends}
use mahiron.Ts.Section.{Section}
use mahiron.Ts.Words.{Bytes}
use mahiron.Carousel.Metadata.{metadata, metadata-Ends}
use mahiron.Carousel.Messages.{parse_dii, parse_ddb}
use mahiron.Carousel.Messages.Total.{messages-Returns}
use mahiron.Carousel.Steps.{
  dii_seen, ddb_seen, Reachable, start, then_, Reachable-budgets, Reachable-Keeps,
}

-- Room for two modules of six bytes.
abbrev small : Limits
small = record { max_module_size = 8; max_completed_bytes = 12; max_in_flight_bytes = 12 }

abbrev info : ℕ → ModuleInfo
info id = record { module_id = id; module_size = 6; version = 1; info = [] }

abbrev announce : List ModuleInfo → Dii
announce items = record { download_id = 7; block_size = 4; modules = items; private_data = [] }

abbrev two_announced : Carousel
two_announced = (observe_dii (announce (info 1 ∷ info 2 ∷ [])) (new_carousel small)).0

two_announced-Reachable : Reachable small two_announced
two_announced-Reachable = then_ start (
    dii_seen (announce (info 1 ∷ info 2 ∷ [])) (new_carousel small)
      (omega arith, (omega arith, tt)))

abbrev first_block : Ddb
first_block = record {
  download_id = 7;
  module_id = 1;
  module_version = 1;
  block_number = 0;
  bytes = 10 ∷ 11 ∷ 12 ∷ 13 ∷ [];
}

Reachable-budgets_example :
    ((observe_ddb first_block two_announced).0.in_flight_bytes
      ≡ weight flight_of (observe_ddb first_block two_announced).0.modules)
    × ((observe_ddb first_block two_announced).0.completed_bytes
        ≡ weight payload_of (observe_ddb first_block two_announced).0.modules)
    × ((observe_ddb first_block two_announced).0.in_flight_bytes
        ≤ (with_defaults small).max_in_flight_bytes)
    × ((observe_ddb first_block two_announced).0.completed_bytes
        ≤ (with_defaults small).max_completed_bytes)
Reachable-budgets_example =
    Reachable-budgets small (observe_ddb first_block two_announced).0
      (unfold with_defaults in (omega arith, omega arith))
      (then_ two_announced-Reachable (ddb_seen first_block two_announced))

two_announced-Keeps : IsWithin two_announced × (two_announced.limits ≡ with_defaults small)
two_announced-Keeps =
    Reachable-Keeps {limits = small} (unfold with_defaults in (omega arith, omega arith))
      two_announced-Reachable

two_announced-IsWithin : IsWithin two_announced
two_announced-IsWithin = two_announced-Keeps.0

room_for_six :
    (0 < 6)
    × (0 < 4)
    × (6 ≤ two_announced.limits.max_module_size)
    × (6 ≤ two_announced.limits.max_in_flight_bytes)
room_for_six =
    rw (two_announced-Keeps.1)
      (unfold with_defaults in (omega arith, omega arith, omega arith, omega arith))

-- A third module of six bytes has no room beside two.
observe_module-Announced_example :
    Announced
      (announce (info 3 ∷ []))
      (info 3)
      (record two_announced { rejected = remove 3 two_announced.rejected })
      (observe_module (announce (info 3 ∷ [])) (info 3) two_announced)
observe_module-Announced_example =
    observe_module-Announced (announce (info 3 ∷ [])) (info 3) (omega arith) two_announced
      two_announced-IsWithin room_for_six

evict_while-Stopped_example :
    IsBalanced
      (evict_while (length two_announced.modules) (over_in_flight 6) is_in_flight two_announced)
    × Shrinks two_announced
        (evict_while (length two_announced.modules) (over_in_flight 6) is_in_flight two_announced)
    × Stopped
        (over_in_flight 6)
        is_in_flight
        (evict_while (length two_announced.modules) (over_in_flight 6) is_in_flight two_announced)
evict_while-Stopped_example =
    evict_while-Stopped (length two_announced.modules) (over_in_flight 6) is_in_flight two_announced
      (omega arith) two_announced-IsWithin.0

evict_oldest-Evicted_example :
    Evicted is_in_flight two_announced (evict_oldest is_in_flight two_announced)
evict_oldest-Evicted_example =
    evict_oldest-Evicted is_in_flight two_announced two_announced-IsWithin.0.unique

-- A DII section with one module, which is no DDB section.
abbrev dii_section : Section
dii_section =
    59 ∷ 176 ∷ 49 ∷ 0 ∷ 1 ∷ 193 ∷ 0 ∷ 0 ∷ 17 ∷ 3 ∷ 16 ∷ 2 ∷ 0 ∷ 0 ∷ 0 ∷ 1 ∷ 255 ∷ 0 ∷ 0 ∷ 28 ∷ 0 ∷ 0
    ∷ 0 ∷ 7 ∷ 0 ∷ 4 ∷ 0 ∷ 0 ∷ 0 ∷ 0 ∷ 0 ∷ 0 ∷ 0 ∷ 0 ∷ 0 ∷ 0 ∷ 0 ∷ 0 ∷ 0 ∷ 1 ∷ 0 ∷ 9 ∷ 0 ∷ 0 ∷ 0 ∷ 6
    ∷ 1 ∷ 0 ∷ 105 ∷ 20 ∷ 143 ∷ 78 ∷ []

messages-Returns_example :
    Returns (λ dii. All IsInfo dii.modules) (parse_dii dii_section) × Ends (parse_ddb dii_section)
messages-Returns_example = messages-Returns dii_section (ground arith)

-- A name, and a descriptor that is cut off.
abbrev cut_info : Bytes
cut_info = 2 ∷ 1 ∷ 65 ∷ 5 ∷ 4 ∷ 0 ∷ []

metadata-Ends_example : Ends (metadata cut_info)
metadata-Ends_example = metadata-Ends cut_info
