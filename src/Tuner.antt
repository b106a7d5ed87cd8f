-- ===== src/Tuner.antt =====
-- internal/tuner/manager.go, status.go and tuner.go: the runtime state of one tuner, its reservation and
-- its users, and the choice of the device that a request with a higher priority takes over.
-- Strings and pointers that are only compared are numbers, 0 the empty string; a priority is an integer, as
-- scans and the collection of programs ask with -1.
-- Logs and published status events leave no state.
pub mod Users
pub mod Priority
pub mod Grab
pub mod Manager
mod Examples
use mahiron.Base.{
  ℕ, zero, suc, ◌+◌, ◌-◌, Bool, true, false, not, ◌&&◌, ◌||◌, List, [], ◌∷◌, length, ◌==◌, ◌/=◌,
  if◌then◌else◌, Option, none, some,
}
use mahiron.Base.Int.{ℤ, pos, ltb_ℤ, leb_ℤ}
use mahiron.Base.Assoc.{Map, lookup, insert, remove}
use mahiron.Ts.Words.{Bytes}

pub record TunerConfig : Type 0 where
  pub name : ℕ
  pub types : List ℕ
  pub is_disabled : Bool
  pub dvb_device_path : Bytes
  pub command : Bytes

pub data SourceKind : Type 0 where
  unsupported by_command by_dvb : SourceKind

unfoldable pub source_kind : TunerConfig → SourceKind
source_kind t =
    if length t.dvb_device_path /= 0
    then by_dvb
    else if length t.command /= 0
    then by_command
    else unsupported

abbrev is_supported : SourceKind → Bool
is_supported unsupported = false
is_supported by_command = true
is_supported by_dvb = true

unfoldable pub usable : TunerConfig → Bool
usable t = is_supported (source_kind t)

pub record StreamInfo : Type 0 where
  pub packet : ℕ
  pub drop : ℕ

-- `setting` stands for the stream setting, which is only handed on.
pub record User : Type 0 where
  pub id : ℕ
  pub priority : ℤ
  pub agent : ℕ
  pub url : ℕ
  pub disable_decoder : Bool
  pub setting : ℕ
  pub stream_info : Option (Map StreamInfo)

pub record TrackedUser : Type 0 where
  pub user : User
  pub refs : ℕ

pub record TunerRuntime : Type 0 where
  pub in_use : Bool
  pub running : Bool
  pub stopped : Bool
  pub fault : Bool
  pub reservation_priority : ℤ
  pub device : Option ℕ
  pub requested : Option ℕ
  pub tuned : Option ℕ
  pub users : Map TrackedUser

abbrev pub new_runtime : TunerRuntime
new_runtime = record {
  in_use = false;
  running = false;
  stopped = false;
  fault = false;
  reservation_priority = pos 0;
  device = none;
  requested = none;
  tuned = none;
  users = [];
}

-- The loop over the users.
unfoldable pub highest : ℤ → Map TrackedUser → ℤ
highest priority [] = priority
highest priority ((id, tracked) ∷ m) =
    highest (if ltb_ℤ priority tracked.user.priority then tracked.user.priority else priority) m

unfoldable pub effective_priority : TunerRuntime → ℤ
effective_priority r = highest r.reservation_priority r.users

-- `resetReservation`, with its result.
unfoldable pub reset_reservation : TunerRuntime → TunerRuntime × Bool
reset_reservation r = (new_runtime, r.fault)

-- The part of `reserveLocked` behind the device that `NewDevice` made, which has an address of its own.
unfoldable pub reserve : ℕ → ℤ → Option ℕ → Option ℕ → TunerRuntime → TunerRuntime
reserve device priority requested tuned r = record r {
  in_use = true;
  running = false;
  stopped = false;
  reservation_priority = priority;
  requested = requested;
  tuned = tuned;
  device = some device;
}

-- `!runtime.inUse || runtime.device != device`
unfoldable pub is_stale : ℕ → TunerRuntime → Bool
is_stale device r =
    not r.in_use || (elim r.device [ none ↦ true | some current ↦ current /= device ])

unfoldable pub mark_running : ℕ → TunerRuntime → TunerRuntime × Bool
mark_running device r =
    if is_stale device r then (r, false) else (record r { running = true; stopped = false }, true)

unfoldable pub mark_stopped : ℕ → TunerRuntime → TunerRuntime × Bool
mark_stopped device r =
    if is_stale device r then (r, false) else (record r { running = false; stopped = true }, true)

unfoldable pub mark_fault : ℕ → TunerRuntime → TunerRuntime × Bool
mark_fault device r =
    if is_stale device r then (r, false) else (record r { running = false; fault = true }, true)

-- A device that may be taken over.
pub record GrabCandidate : Type 0 where
  pub device : ℕ
  pub tuner_name : ℕ
  pub priority : ℤ

-- `current.device != nil && current.priority <= effectivePriority`
unfoldable pub is_better : Option GrabCandidate → ℤ → Bool
is_better none priority = false
is_better (some current) priority = leb_ℤ current.priority priority

unfoldable pub better_grab_candidate :
    Option GrabCandidate → ℕ → TunerRuntime → ℤ → Option GrabCandidate
better_grab_candidate current name r request_priority = elim r.device [
  | none ↦ current
  | some device ↦
      let effective = effective_priority r in
      if leb_ℤ request_priority effective || is_better current effective
      then current
      else some (record { device = device; tuner_name = name; priority = effective })
]

-- The user as it is kept: one that brings no stream information keeps the former one.
unfoldable pub refresh : TrackedUser → User → TrackedUser
refresh tracked user = record {
  refs = suc tracked.refs;
  user = elim user.stream_info [
    | none ↦ record user { stream_info = tracked.user.stream_info }
    | some info ↦ user
  ];
}

unfoldable pub track : Option TrackedUser → User → TrackedUser
track none user = record { user = user; refs = 1 }
track (some tracked) user = refresh tracked user

unfoldable pub add_user : User → TunerRuntime → TunerRuntime
add_user user r =
    if user.id == 0
    then r
    else record r { users = insert user.id (track (lookup user.id r.users) user) r.users }

-- `tracked.refs--`, and the user goes with the last reference.
unfoldable pub untrack : ℕ → TrackedUser → Map TrackedUser → Map TrackedUser
untrack id tracked users =
    if tracked.refs == 1
    then remove id users
    else insert id (record tracked { refs = tracked.refs - 1 }) users

unfoldable pub remove_user : ℕ → TunerRuntime → TunerRuntime
remove_user id r = elim (lookup id r.users) [
  | none ↦ r
  | some tracked ↦ record r { users = untrack id tracked r.users }
]

unfoldable pub noted : ℕ → StreamInfo → TrackedUser → TrackedUser
noted key info tracked = record tracked {
  user = record (tracked.user) {
    stream_info = elim (tracked.user.stream_info) [
      | none ↦ some (insert key info [])
      | some infos ↦ some (insert key info infos)
    ];
  };
}

unfoldable pub update_user_stream_info : ℕ → ℕ → StreamInfo → TunerRuntime → TunerRuntime
update_user_stream_info id key info r = elim (lookup id r.users) [
  | none ↦ r
  | some tracked ↦ record r { users = insert id (noted key info tracked) r.users }
]
