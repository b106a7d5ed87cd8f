-- ===== src/Tuner/Examples.antt =====
-- Runs of the tuner state.
use mahiron.Base.{◌==◌, if◌then◌else◌, ℕ, ◌≡◌, refl, false, true, [], ◌∷◌, none, some, arith}
use mahiron.Base.Int.{pos, negsuc}
use mahiron.Base.Assoc.{lookup, insert}
use mahiron.Tuner.{
  User, TunerRuntime, new_runtime, reserve, add_user, remove_user, usable, source_kind, track,
}
use mahiron.Tuner.Manager.{
  TunerManager, Request, new_tuner_manager, try_acquire_locked, search, visit, is_other,
  settle_attempt, reserve_locked, no_attempt,
}
use mahiron.Base.Members.{mem}
use mahiron.Tuner.Manager.Search.{Outcome, try_acquire_locked-Outcome}
use mahiron.Tuner.Manager.Calls.{acquires, start, then_}
use mahiron.Tuner.Manager.Devices.{Reachable-one_holder}
use mahiron.Tuner.Users.{IsCounted, left_behind, remove_user-add_user}
use mahiron.Tuner.Grab.{candidates, Best, candidates-Best}

abbrev viewer : User
viewer = record {
  id = 7;
  priority = pos 2;
  agent = 0;
  url = 0;
  disable_decoder = false;
  setting = 0;
  stream_info = none;
}

-- A reserved tuner with one user, and one with a less important reservation.
abbrev watched : TunerRuntime
watched = add_user viewer (reserve 1 (pos 0) none none new_runtime)

abbrev recorded : TunerRuntime
recorded = reserve 2 (negsuc 0) none none new_runtime

watched-IsCounted : IsCounted watched
unfolding add_user reserve lookup insert track
watched-IsCounted k tracked e = ground (arith, e)

-- The viewer comes once more and goes.
remove_user-add_user_example :
    ((k : ℕ)
      → lookup k (remove_user 7 (add_user viewer watched)).users
        ≡ (if 7 == k then left_behind viewer (lookup k watched.users) else lookup k watched.users))
    × IsCounted (remove_user 7 (add_user viewer watched))
remove_user-add_user_example = remove_user-add_user viewer watched (omega arith) watched-IsCounted

candidates-Best_example :
    Best
      ((10, watched) ∷ (11, recorded) ∷ [])
      (pos 5)
      (candidates none ((10, watched) ∷ (11, recorded) ∷ []) (pos 5))
candidates-Best_example = candidates-Best ((10, watched) ∷ (11, recorded) ∷ []) (pos 5)

-- The first tuner receives another type, the second is free.
abbrev two_tuners : TunerManager
two_tuners = new_tuner_manager (
    record {
      name = 1;
      types = 8 ∷ [];
      is_disabled = false;
      dvb_device_path = 47 ∷ [];
      command = [];
    }
    ∷ record {
      name = 2;
      types = 9 ∷ [];
      is_disabled = false;
      dvb_device_path = 47 ∷ [];
      command = [];
    }
    ∷ [])

abbrev wanted : Request
wanted = record { channel_type = 9; priority = negsuc 0; requested = none; tuned = none }

try_acquire_locked-Outcome_example :
    Outcome wanted two_tuners (try_acquire_locked wanted two_tuners)
try_acquire_locked-Outcome_example = try_acquire_locked-Outcome wanted two_tuners

second_taken : ((try_acquire_locked wanted two_tuners).1.runtime 1).device ≡ some 0
unfolding try_acquire_locked search visit is_other mem usable source_kind settle_attempt
    reserve_locked reserve new_tuner_manager no_attempt
second_taken = refl

-- A second request finds no tuner.
Reachable-one_holder_example :
    (◌≡◌ {A = ℕ} 1 1)
    × ((try_acquire_locked wanted two_tuners).1.in_use 1 ≡ true)
    × (((try_acquire_locked wanted two_tuners).1.runtime 1).in_use ≡ true)
    × (((try_acquire_locked wanted (try_acquire_locked wanted two_tuners).1).1.runtime 1).device
        ≡ some 0)
Reachable-one_holder_example =
    Reachable-one_holder (try_acquire_locked wanted two_tuners).1
      (try_acquire_locked wanted (try_acquire_locked wanted two_tuners).1).1
      (then_ start (acquires wanted two_tuners))
      (acquires wanted (try_acquire_locked wanted two_tuners).1) 1 1 0 (λ e. cc) second_taken
      second_taken
