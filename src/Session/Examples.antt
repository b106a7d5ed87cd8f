-- ===== src/Session/Examples.antt =====
-- Runs of the registry.
use mahiron.Base.{◌≡◌, refl, none, some}
use mahiron.Base.Assoc.{lookup, insert}
use mahiron.Session.{
  SessionEntry, SessionRegistry, new_session_registry, acquire, acquire_absent, start_create,
  complete_create, create, pending,
}
use mahiron.Session.Shared.{
  Completed, IsShared, acquired, Reachable, start, then_, Reachable-IsShared,
  complete_create-Shared, acquire-joins,
}

-- A creation under way for key 4.
abbrev creating : SessionRegistry
creating = (acquire 4 new_session_registry).0

creating-Reachable : Reachable creating
creating-Reachable = then_ start (acquired 4 new_session_registry)

Reachable-IsShared_example : IsShared creating
Reachable-IsShared_example = Reachable-IsShared creating-Reachable

creating-IsShared : IsShared creating
creating-IsShared = Reachable-IsShared creating-Reachable

abbrev new_entry : SessionEntry
new_entry = record { session = 9; route_type = 1; source = 2; started_at = 3 }

complete_create-Shared_example :
    (r' : SessionRegistry) × (complete_create 4 0 (some 9) new_entry none creating ≡ some r')
    × Completed 4 0 (some 9) new_entry none creating r'
complete_create-Shared_example =
    complete_create-Shared 4 0 (some 9) new_entry none creating
      (unfold acquire acquire_absent start_create new_session_registry lookup insert in refl)
      creating-IsShared

acquire-joins_example :
    (acquire 4 new_session_registry ≡ (start_create 4 new_session_registry, create 0))
    × (acquire 4 (start_create 4 new_session_registry)
        ≡ (start_create 4 new_session_registry, pending 0))
acquire-joins_example =
    unfold new_session_registry lookup in acquire-joins 4 new_session_registry refl refl refl
