-- ===== src/Tuner/Manager/Calls.antt =====
-- The calls on a tuner manager as steps, and what those on one tuner's state leave alone.
use mahiron.Base.{
  ℕ, ◌≡◌, refl, sym, ap, ◌∙◌, ◌==◌, List, some, Bool-cases, Option-cases, inl, inr, ==_iff, Option,
  none,
}
use mahiron.Base.Assoc.{lookup}
use mahiron.Tuner.{
  TunerConfig, User, TunerRuntime, is_stale, mark_running, mark_stopped, mark_fault, add_user,
  remove_user, StreamInfo, update_user_stream_info,
}
use mahiron.Tuner.Manager.{
  TunerManager, Request, new_tuner_manager, stored, try_acquire_locked, release,
}

-- A call that changes the runtime state of one tuner only.
abbrev pub change : ℕ → (TunerRuntime → TunerRuntime) → TunerManager → TunerManager
change index f tm = record tm { runtime = stored index (f (tm.runtime index)) tm.runtime }

-- The calls under the manager's lock that change a state, with the tuner that is released, if any.
pub data Step : Option ℕ → TunerManager → TunerManager → Type 0 where
  acquires :
      (request : Request) (tm : TunerManager) → Step none tm (try_acquire_locked request tm).1
  releases : (index : ℕ) (tm : TunerManager) → Step (some index) tm (release index tm)
  runs :
      (index device : ℕ) (tm : TunerManager)
      → Step none tm (change index (λ r. (mark_running device r).0) tm)
  stops :
      (index device : ℕ) (tm : TunerManager)
      → Step none tm (change index (λ r. (mark_stopped device r).0) tm)
  faults :
      (index device : ℕ) (tm : TunerManager)
      → Step none tm (change index (λ r. (mark_fault device r).0) tm)
  gains :
      (index : ℕ) (user : User) (tm : TunerManager) → Step none tm (change index (add_user user) tm)
  notes :
      (index id key : ℕ) (info : StreamInfo) (tm : TunerManager)
      → Step none tm (change index (update_user_stream_info id key info) tm)
  loses : (index id : ℕ) (tm : TunerManager) → Step none tm (change index (remove_user id) tm)

pub data Reachable (tuners : List TunerConfig) : TunerManager → Type 0 where
  start : Reachable tuners (new_tuner_manager tuners)
  then_ :
      {released : Option ℕ} {tm tm' : TunerManager}
      → Reachable tuners tm
      → Step released tm tm'
      → Reachable tuners tm'

-- What a call on one tuner's state leaves alone.
abbrev pub SameHold : TunerRuntime → TunerRuntime → Type 0
SameHold r' r = (r'.in_use ≡ r.in_use) × (r'.device ≡ r.device)

module _ (index : ℕ) (f : TunerRuntime → TunerRuntime) (tm : TunerManager)
    (same : SameHold (f (tm.runtime index)) (tm.runtime index)) where
  pub change-in_use : (i : ℕ) → ((change index f tm).runtime i).in_use ≡ (tm.runtime i).in_use
  change-in_use i = elim (Bool-cases (i == index)) [
    | inl e ↦
        let k = (==_iff i index).0 e in rw e (same.0 ∙ ap (λ x. (tm.runtime x).in_use) (sym k))
    | inr e ↦ rw e refl
  ]

  pub change-device : (i : ℕ) → ((change index f tm).runtime i).device ≡ (tm.runtime i).device
  change-device i = elim (Bool-cases (i == index)) [
    | inl e ↦
        let k = (==_iff i index).0 e in rw e (same.1 ∙ ap (λ x. (tm.runtime x).device) (sym k))
    | inr e ↦ rw e refl
  ]

pub mark_running-SameHold : (device : ℕ) (r : TunerRuntime) → SameHold (mark_running device r).0 r
unfolding mark_running
mark_running-SameHold device r = elim (Bool-cases (is_stale device r)) [
  | inl e ↦ rw (e, mark_running) (refl, refl)
  | inr e ↦ rw (e, mark_running) (refl, refl)
]

pub mark_stopped-SameHold : (device : ℕ) (r : TunerRuntime) → SameHold (mark_stopped device r).0 r
unfolding mark_stopped
mark_stopped-SameHold device r = elim (Bool-cases (is_stale device r)) [
  | inl e ↦ rw (e, mark_stopped) (refl, refl)
  | inr e ↦ rw (e, mark_stopped) (refl, refl)
]

pub mark_fault-SameHold : (device : ℕ) (r : TunerRuntime) → SameHold (mark_fault device r).0 r
unfolding mark_fault
mark_fault-SameHold device r = elim (Bool-cases (is_stale device r)) [
  | inl e ↦ rw (e, mark_fault) (refl, refl)
  | inr e ↦ rw (e, mark_fault) (refl, refl)
]

pub add_user-SameHold : (user : User) (r : TunerRuntime) → SameHold (add_user user r) r
unfolding add_user
add_user-SameHold user r = elim (Bool-cases (user.id == 0)) [
  | inl e ↦ rw (e, add_user) (refl, refl)
  | inr e ↦ rw (e, add_user) (refl, refl)
]

pub remove_user-SameHold : (id : ℕ) (r : TunerRuntime) → SameHold (remove_user id r) r
unfolding remove_user
remove_user-SameHold id r = elim (Option-cases (lookup id r.users)) [
  | inl e ↦ rw (e, remove_user) (refl, refl)
  | inr (tracked, e) ↦ rw (e, remove_user) (refl, refl)
]

pub update_user_stream_info-SameHold :
    (id key : ℕ) (info : StreamInfo) (r : TunerRuntime)
    → SameHold (update_user_stream_info id key info r) r
unfolding update_user_stream_info
update_user_stream_info-SameHold id key info r = elim (Option-cases (lookup id r.users)) [
  | inl e ↦ rw (e, update_user_stream_info) (refl, refl)
  | inr (tracked, e) ↦ rw (e, update_user_stream_info) (refl, refl)
]
