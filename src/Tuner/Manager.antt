-- ===== src/Tuner/Manager.antt =====
-- internal/tuner/manager.go: the search of `tryAcquireLocked` over all tuners, and the release. A tuner is
-- its index, and `NewDevice` gives a supported tuner a device of a new address. `changed` only wakes
-- goroutines up; the decoder's command and the status are read off the tuner that is found.
pub mod Visit
pub mod Search
pub mod Calls
pub mod Devices
use mahiron.Base.{
  ℕ, zero, suc, ◌+◌, ◌%◌, Bool, true, false, not, ◌&&◌, ◌||◌, List, [], ◌∷◌, length, ◌==◌,
  if◌then◌else◌, Option, none, some, get_elem?,
}
use mahiron.Base.Int.{ℤ}
use mahiron.Base.Members.{mem}
use mahiron.Tuner.{
  TunerConfig, TunerRuntime, GrabCandidate, new_runtime, usable, reserve, reset_reservation,
  better_grab_candidate,
}

pub record TunerManager : Type 0 where
  pub tuners : List TunerConfig
  pub in_use : ℕ → Bool
  pub runtime : ℕ → TunerRuntime
  pub next_by_type : ℕ → ℕ
  pub devices : ℕ

unfoldable pub new_tuner_manager : List TunerConfig → TunerManager
new_tuner_manager tuners = record {
  tuners = tuners;
  in_use = λ index. false;
  runtime = λ index. new_runtime;
  next_by_type = λ channel_type. 0;
  devices = 0;
}

-- `m[k] = v`
abbrev pub stored {ℓ} : {A : Type ℓ} → ℕ → A → (ℕ → A) → ℕ → A
stored k v m j = if j == k then v else m j

-- `tryAcquireLocked`'s parameters.
pub record Request : Type 0 where
  pub channel_type : ℕ
  pub priority : ℤ
  pub requested : Option ℕ
  pub tuned : Option ℕ

pub record ManagedDevice : Type 0 where
  pub device : ℕ
  pub tuner : ℕ

pub record AcquireAttempt : Type 0 where
  pub device : Option ManagedDevice
  pub grab : Option GrabCandidate
  pub found : Bool
  pub usable_found : Bool

unfoldable pub reserve_locked :
    ℕ → TunerConfig → Request → TunerManager → Option ManagedDevice × TunerManager
reserve_locked index item request tm = if not (usable item) then (none, tm) else (
  some (record { device = tm.devices; tuner = index }),
  record tm {
    in_use = stored index true tm.in_use;
    runtime =
        stored index
          (reserve tm.devices request.priority request.requested request.tuned (tm.runtime index))
          tm.runtime;
    devices = suc tm.devices;
  },
)

-- `item.IsDisabled() || !slices.Contains(item.Groups(), channelType)`
unfoldable pub is_other : Request → TunerConfig → Bool
is_other request item = item.is_disabled || not (mem request.channel_type item.types)

-- The end of the loop's body, behind `reserveLocked`.
unfoldable pub settle_attempt :
    Request
    → ℕ
    → AcquireAttempt
    → Option ManagedDevice × TunerManager
    → AcquireAttempt × TunerManager
settle_attempt request index a (none, tm) = (a, tm)
settle_attempt request index a (some device, tm) = (
  record a { device = some device },
  record tm {
    next_by_type = stored request.channel_type (suc index % length tm.tuners) tm.next_by_type;
  },
)

-- The loop's body.
unfoldable pub visit :
    Request → ℕ → TunerConfig → AcquireAttempt → TunerManager → AcquireAttempt × TunerManager
visit request index item a tm =
    let here = record a { found = true } in
    let seen = record a { found = true; usable_found = true } in
    let runtime = tm.runtime index in
    if is_other request item
    then (a, tm)
    else if not (usable item)
    then (here, tm)
    else if runtime.fault
    then (seen, tm)
    else if tm.in_use index
    then (
      record seen { grab = better_grab_candidate a.grab item.name runtime request.priority },
      tm,
    )
    else settle_attempt request index seen (reserve_locked index item request tm)

-- The loop, with the number of rounds that are left. The index is one of a tuner.
unfoldable pub search :
    ℕ → ℕ → ℕ → Request → AcquireAttempt → TunerManager → AcquireAttempt × TunerManager
search zero start offset request a tm = (a, tm)
search (suc n) start offset request a tm =
    let index = (start + offset) % length tm.tuners in
    elim (get_elem? tm.tuners index) [
      | none ↦ (a, tm)
      | some item ↦
          let r = visit request index item a tm in
          elim r.0.device [ none ↦ search n start (suc offset) request r.0 r.1 | some device ↦ r ]
    ]

unfoldable pub no_attempt : AcquireAttempt
no_attempt = record { device = none; grab = none; found = false; usable_found = false }

unfoldable pub try_acquire_locked : Request → TunerManager → AcquireAttempt × TunerManager
try_acquire_locked request tm =
    search (length tm.tuners) (tm.next_by_type request.channel_type) 0 request no_attempt tm

unfoldable pub release : ℕ → TunerManager → TunerManager
release index tm =
    if tm.in_use index
    then record tm {
      in_use = stored index false tm.in_use;
      runtime = stored index (reset_reservation (tm.runtime index)).0 tm.runtime;
    }
    else tm
