-- ===== src/Carousel/Reassembly/Examples.antt =====
-- Blocks that arrive at a carousel with one announced module.
use mahiron.Base.{
  ℕ, zero, suc, get_or, ◌||◌, ◌<◌, ◌≡◌, refl, sym, ◌∙◌, true, false, List, [], ◌∷◌, All, length,
  some, arith,
}
use mahiron.Base.Assoc.{lookup, insert}
use mahiron.Carousel.{
  Limits, Carousel, ModuleInfo, Dii, Ddb, ModuleState, with_defaults, new_carousel, observe_dii,
  fresh_state, remove_unseen, observe_modules, observe_module, is_current, remove_module, admit,
  evict_while, add64, allocate, seen, block_count,
}
use mahiron.Carousel.Budget.{IsWithin}
use mahiron.Carousel.Steps.{dii_seen, start, then_, Reachable-Keeps}
use mahiron.Carousel.Reassembly.Run.{Source, Awaits, Carries, receive, receive-payload}
use mahiron.Carousel.Reassembly.Last.{Waits, IsBlockOf, has_block}
use mahiron.Carousel.Reassembly.Ends.{receive_complete}
use mahiron.Carousel.Reassembly.Fresh.{fresh_state-Awaits}

abbrev small : Limits
small = record { max_module_size = 8; max_completed_bytes = 12; max_in_flight_bytes = 12 }

abbrev src : Source
src = record {
  download_id = 7;
  module_id = 1;
  version = 1;
  block_size = 4;
  payload = 10 ∷ 11 ∷ 12 ∷ 13 ∷ 14 ∷ 15 ∷ [];
}

abbrev item : ModuleInfo
item = record { module_id = 1; module_size = 6; version = 1; info = [] }

abbrev dii : Dii
dii = record { download_id = 7; block_size = 4; modules = item ∷ []; private_data = [] }

abbrev announced : Carousel
announced = (observe_dii dii (new_carousel small)).0

announced-Keeps : IsWithin announced × (announced.limits ≡ with_defaults small)
announced-Keeps =
    Reachable-Keeps {limits = small} (unfold with_defaults in (omega arith, omega arith))
      (then_ start (dii_seen dii (new_carousel small) (omega arith, tt)))

abbrev waiting : ModuleState
waiting = fresh_state dii item 1

waiting-Awaits : Awaits src waiting
waiting-Awaits = fresh_state-Awaits src dii item 1 refl refl refl refl (omega arith) (omega arith)

waiting_there : lookup 1 announced.modules ≡ some waiting
unfolding fresh_state lookup observe_dii remove_unseen observe_modules observe_module new_carousel
    with_defaults is_current remove_module admit evict_while add64 allocate insert seen
waiting_there = refl

abbrev second_block : Ddb
second_block = record {
  download_id = 7;
  module_id = 1;
  module_version = 1;
  block_number = 1;
  bytes = 14 ∷ 15 ∷ [];
}

abbrev first_block : Ddb
first_block = record {
  download_id = 7;
  module_id = 1;
  module_version = 1;
  block_number = 0;
  bytes = 10 ∷ 11 ∷ 12 ∷ 13 ∷ [];
}

-- Of another version.
abbrev old_block : Ddb
old_block = record {
  download_id = 7;
  module_id = 1;
  module_version = 0;
  block_number = 0;
  bytes = 99 ∷ [];
}

abbrev shuffled : List Ddb
shuffled = second_block ∷ second_block ∷ first_block ∷ []

abbrev mixed : List Ddb
mixed = second_block ∷ old_block ∷ first_block ∷ []

announced-Waits : Waits src waiting announced
unfolding block_count
announced-Waits = record {
  found = waiting_there;
  open_ = unfold fresh_state in refl;
  awaits = waiting-Awaits;
  missing = unfold fresh_state in omega arith;
  within = announced-Keeps.0;
  fits = rw (announced-Keeps.1) (unfold with_defaults in omega arith);
}

announced-Carries : Carries src announced
announced-Carries st q waits =
    let e : some waiting ≡ some st = sym waiting_there ∙ q in
    let same : waiting ≡ st = cc in rw (← same) waiting-Awaits

shuffled-IsBlockOf : All (IsBlockOf src) shuffled
shuffled-IsBlockOf = (second, (second, (first, tt)))
  where
    first : IsBlockOf src first_block
    first = record {
      same_module = refl;
      same_download = refl;
      same_version = refl;
      inside = omega arith;
      cut = refl;
    }

    second : IsBlockOf src second_block
    second = record {
      same_module = refl;
      same_download = refl;
      same_version = refl;
      inside = omega arith;
      cut = refl;
    }

shuffled-Supplies :
    (n : ℕ)
    → n < length waiting.received
    → (get_or waiting.received n false || has_block n shuffled) ≡ true
unfolding fresh_state block_count has_block
shuffled-Supplies zero h = refl
shuffled-Supplies (suc zero) h = refl
shuffled-Supplies (suc (suc n)) h = absurd (omega arith)

receive_complete_example :
    (0 < length (receive 1 shuffled announced))
    × All (λ m. m.bytes ≡ src.payload) (receive 1 shuffled announced)
receive_complete_example =
    receive_complete src shuffled waiting announced announced-Waits shuffled-IsBlockOf
      shuffled-Supplies

receive-payload_example : All (λ m. m.bytes ≡ src.payload) (receive 1 mixed announced)
receive-payload_example =
    receive-payload src mixed announced announced-Carries
      (λ p q r. refl, (λ p q r. absurd (omega arith), (λ p q r. refl, tt)))
