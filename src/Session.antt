-- ===== src/Session.antt =====
-- internal/stream/session_registry.go: the registry of live sessions and of the creations under way.
-- A session key (channel, type) is only compared, and stands as a number; so do the pointers of
-- sessions and of `sessionCreate` objects. The objects are in a store under their pointer.
-- The recorded durations and the logs leave no state and are not part of the model.
pub mod Shared
mod Examples
use mahiron.Base.{
  ℕ, suc, ◌+◌, Bool, true, false, List, [], ◌∷◌, map, length, ◌==◌, if◌then◌else◌, Option, none,
  some,
}
use mahiron.Base.Assoc.{Map, lookup, insert, remove, has}

pub record SessionEntry : Type 0 where
  pub session : ℕ
  pub route_type : ℕ
  pub source : ℕ
  pub started_at : ℕ

-- `done` says whether the channel is closed; `failure` is the error of the creation.
pub record SessionCreate : Type 0 where
  pub done : Bool
  pub failure : Option ℕ
  pub session : Option ℕ

pub record SessionRegistry : Type 0 where
  pub sessions : Map SessionEntry
  pub creates : Map ℕ
  pub shutting_down : Bool
  -- The objects that were made, and the address of the next one.
  pub store : Map SessionCreate
  pub next : ℕ

unfoldable pub new_session_registry : SessionRegistry
new_session_registry = record {
  sessions = [];
  creates = [];
  shutting_down = false;
  store = [];
  next = 0;
}

-- `acquireResult`, of which one field is set.
pub data AcquireResult : Type 0 where
  entry : SessionEntry → AcquireResult
  pending create : ℕ → AcquireResult
  refused : AcquireResult

-- A new creation under the key.
unfoldable pub start_create : ℕ → SessionRegistry → SessionRegistry
start_create key r = record r {
  creates = insert key r.next r.creates;
  store = insert r.next (record { done = false; failure = none; session = none }) r.store;
  next = suc r.next;
}

-- The creation under the key, or a new one.
abbrev pub join_or_start : ℕ → SessionRegistry → Option ℕ → SessionRegistry × AcquireResult
join_or_start key r (some pointer) = (r, pending pointer)
join_or_start key r none = (start_create key r, create r.next)

-- `acquire` behind the look at the sessions.
unfoldable pub acquire_absent : ℕ → SessionRegistry → SessionRegistry × AcquireResult
acquire_absent key r =
    if r.shutting_down then (r, refused) else join_or_start key r (lookup key r.creates)

unfoldable pub acquire : ℕ → SessionRegistry → SessionRegistry × AcquireResult
acquire key r = elim (lookup key r.sessions) [
  | some found ↦ (r, entry found)
  | none ↦ acquire_absent key r
]

unfoldable pub add_locked : ℕ → SessionEntry → SessionRegistry → SessionRegistry
add_locked key new r = record r { sessions = insert key new r.sessions }

-- The object gets its result and its channel is closed; to close it again is a panic, `none` here.
unfoldable pub settle_create : ℕ → Option ℕ → Option ℕ → SessionRegistry → Option SessionRegistry
settle_create pointer session failure r = elim (lookup pointer r.store) [
  | none ↦ none
  | some object ↦
      if object.done
      then none
      else some (record r {
        store =
            insert pointer (record { done = true; failure = failure; session = session }) r.store;
      })
]

-- `completeCreate`: `outcome` is the entry of the created session, or the error.
unfoldable pub complete_create :
    ℕ → ℕ → Option ℕ → SessionEntry → Option ℕ → SessionRegistry → Option SessionRegistry
complete_create key pointer session new failure r =
    let added : SessionRegistry = elim failure [ none ↦ add_locked key new r | some e ↦ r ] in
    settle_create pointer session failure (record added { creates = remove key added.creates })

unfoldable pub get_session : ℕ → SessionRegistry → Option ℕ
get_session key r = elim (lookup key r.sessions) [ none ↦ none | some found ↦ some found.session ]

unfoldable pub count_sessions : SessionRegistry → ℕ
count_sessions r = length r.sessions

unfoldable pub remove_session : ℕ → SessionRegistry → SessionRegistry
remove_session key r = record r { sessions = remove key r.sessions }

unfoldable pub remove_if_same : ℕ → ℕ → SessionRegistry → SessionRegistry
remove_if_same key session r = elim (lookup key r.sessions) [
  | none ↦ r
  | some found ↦ if found.session == session then remove_session key r else r
]

unfoldable pub begin_shutdown : SessionRegistry → SessionRegistry × List ℕ
begin_shutdown r = (record r { shutting_down = true }, map (λ e. e.1) r.creates)

unfoldable pub active_sessions : SessionRegistry → List ℕ
active_sessions r = map (λ e. e.1.session) r.sessions

-- `for key := range r.sessions { r.removeLocked(key) }`
unfoldable pub clear : SessionRegistry → SessionRegistry
clear r = record r { sessions = [] }
