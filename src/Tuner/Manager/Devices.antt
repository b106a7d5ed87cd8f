-- ===== src/Tuner/Manager/Devices.antt =====
-- The devices of the tuners: after any calls no two tuners hold the same one.
use mahiron.Base.{
  ℕ, ◌<◌, ◌≡◌, refl, sym, ap, ◌∙◌, true, ◌==◌, List, some, arith, Bool-cases, Option-cases, inl,
  inr, ==_iff, Option, false, get_elem?, ◌≢◌, ◌%◌, ◌+◌, length,
}
use mahiron.Tuner.{
  TunerConfig, TunerRuntime, reserve, reset_reservation, mark_running, mark_stopped, mark_fault,
  add_user, remove_user, update_user_stream_info,
}
use mahiron.Tuner.Manager.{TunerManager, Request, AcquireAttempt, new_tuner_manager, release}
use mahiron.Tuner.Manager.Visit.{taken, is_free}
use mahiron.Tuner.Manager.Search.{Outcome, try_acquire_locked-Outcome, acquired_first, none_free}
use mahiron.Tuner.Manager.Calls.{
  change, Step, Reachable, start, then_, acquires, releases, runs, stops, faults, gains, notes,
  loses, SameHold, change-in_use, change-device, mark_running-SameHold, mark_stopped-SameHold,
  mark_fault-SameHold, add_user-SameHold, remove_user-SameHold, update_user_stream_info-SameHold,
}

record IsSound (tm : TunerManager) : Type 0 where
  agree : (i : ℕ) → (tm.runtime i).in_use ≡ tm.in_use i
  held : (i d : ℕ) → (tm.runtime i).device ≡ some d → tm.in_use i ≡ true
  below : (i d : ℕ) → (tm.runtime i).device ≡ some d → d < tm.devices
  apart : (i j d : ℕ) → (tm.runtime i).device ≡ some d → (tm.runtime j).device ≡ some d → i ≡ j

change-IsSound :
    (index : ℕ) (f : TunerRuntime → TunerRuntime) (tm : TunerManager)
    → SameHold (f (tm.runtime index)) (tm.runtime index)
    → IsSound tm
    → IsSound (change index f tm)
change-IsSound index f tm same s =
    let used = change-in_use index f tm same in
    let device = change-device index f tm same in
    record {
      agree = λ i. used i ∙ s.agree i;
      held = λ i e h. s.held i e (sym (device i) ∙ h);
      below = λ i e h. s.below i e (sym (device i) ∙ h);
      apart = λ i j e h k. s.apart i j e (sym (device i) ∙ h) (sym (device j) ∙ k);
    }

taken-IsSound :
    (request : Request) (index : ℕ) (tm : TunerManager)
    → IsSound tm
    → IsSound (taken request index tm)
unfolding reserve
taken-IsSound request index tm s = record {
  agree = λ i. let a = s.agree i in ground arith;
  held = λ i d h. let a = s.held i d in ground arith;
  below = λ i d h. elim (Bool-cases (i == index)) [
    | inl e ↦ ground (arith, s.below i d)
    | inr e ↦ ground (arith, s.below i d)
  ];
  apart = λ i j d h k. elim (Bool-cases (i == index)) [
    | inl e ↦ elim (Bool-cases (j == index)) [
      | inl f ↦ (==_iff i index).0 e ∙ sym ((==_iff j index).0 f)
      | inr f ↦ absurd (ground (arith, s.below j d))
    ]
    | inr e ↦ elim (Bool-cases (j == index)) [
      | inl f ↦ absurd (ground (arith, s.below i d))
      | inr f ↦ ground (arith, s.apart i j d)
    ]
  ];
}

Outcome-IsSound :
    {request : Request} {tm : TunerManager} {r : AcquireAttempt × TunerManager}
    → Outcome request tm r
    → IsSound tm
    → IsSound r.1
Outcome-IsSound {request} {tm} (acquired_first offset a low open_ before device) s =
    taken-IsSound request _ tm s
Outcome-IsSound (none_free a closed device grab) s = s

release-IsSound : (index : ℕ) (tm : TunerManager) → IsSound tm → IsSound (release index tm)
unfolding release reset_reservation
release-IsSound index tm s = elim (Bool-cases (tm.in_use index)) [
  | inr idle ↦ rw (idle, release) s
  | inl used ↦
      rw (used, release)
        (record {
          agree = λ i. let a = s.agree i in ground arith;
          held = λ i d h. let a = s.held i d in ground arith;
          below = λ i d h. ground (arith, s.below i d);
          apart = λ i j d h k. ground (arith, s.apart i j d);
        })
]

Step-IsSound :
    {released : Option ℕ} {tm tm' : TunerManager} → Step released tm tm' → IsSound tm → IsSound tm'
Step-IsSound (acquires request tm) s = Outcome-IsSound (try_acquire_locked-Outcome request tm) s
Step-IsSound (releases index tm) s = release-IsSound index tm s
Step-IsSound (runs index device tm) s =
    change-IsSound index (λ r. (mark_running device r).0) tm
      (mark_running-SameHold device (tm.runtime index)) s
Step-IsSound (stops index device tm) s =
    change-IsSound index (λ r. (mark_stopped device r).0) tm
      (mark_stopped-SameHold device (tm.runtime index)) s
Step-IsSound (faults index device tm) s =
    change-IsSound index (λ r. (mark_fault device r).0) tm
      (mark_fault-SameHold device (tm.runtime index)) s
Step-IsSound (gains index user tm) s =
    change-IsSound index (add_user user) tm (add_user-SameHold user (tm.runtime index)) s
Step-IsSound (notes index id key info tm) s =
    change-IsSound index (update_user_stream_info id key info) tm
      (update_user_stream_info-SameHold id key info (tm.runtime index)) s
Step-IsSound (loses index id tm) s =
    change-IsSound index (remove_user id) tm (remove_user-SameHold id (tm.runtime index)) s

Reachable-IsSound :
    {tuners : List TunerConfig} {tm : TunerManager} → Reachable tuners tm → IsSound tm
unfolding new_tuner_manager
Reachable-IsSound start = record {
  agree = λ i. refl;
  held = λ i d h. cc;
  below = λ i d h. cc;
  apart = λ i j d h k. cc;
}
Reachable-IsSound (then_ before step) = Step-IsSound step (Reachable-IsSound before)

is_free-idle :
    (request : Request) (tm : TunerManager) (index : ℕ)
    → is_free request tm index ≡ true
    → tm.in_use index ≡ false
unfolding is_free
is_free-idle request tm index h = elim (Option-cases (get_elem? tm.tuners index)) [
  | inl absent ↦ cc
  | inr (item, found) ↦ ground (arith, found)
]

Outcome-device :
    {request : Request} {tm : TunerManager} {r : AcquireAttempt × TunerManager}
    → Outcome request tm r
    → (i d : ℕ) → tm.in_use i ≡ true
    → (tm.runtime i).device ≡ some d
    → (r.1.runtime i).device ≡ some d
Outcome-device {request} {tm} (acquired_first offset a low open_ before device) i d used h =
    let index : ℕ = (tm.next_by_type request.channel_type + offset) % length tm.tuners in
    let idle = is_free-idle request tm index open_ in
    elim (Bool-cases (i == index)) [
      | inl e ↦ let same = ap tm.in_use ((==_iff i index).0 e) in absurd (cc (same, used, idle))
      | inr e ↦ rw e h
    ]
Outcome-device (none_free a closed device grab) i d used h = h

release-device :
    (index : ℕ) (tm : TunerManager) (i d : ℕ)
    → some index ≢ some i
    → (tm.runtime i).device ≡ some d
    → ((release index tm).runtime i).device ≡ some d
unfolding release
release-device index tm i d other h = elim (Bool-cases (tm.in_use index)) [
  | inr idle ↦ rw (idle, release) h
  | inl used ↦
      rw (used, release)
        (elim (Bool-cases (i == index)) [
          | inl e ↦ absurd (other (ap some (sym ((==_iff i index).0 e))))
          | inr e ↦ rw e h
        ])
]

Step-device :
    {released : Option ℕ} {tm tm' : TunerManager}
    → Step released tm tm'
    → (i d : ℕ) → released ≢ some i
    → tm.in_use i ≡ true
    → (tm.runtime i).device ≡ some d
    → (tm'.runtime i).device ≡ some d
Step-device (acquires request tm) i d other used h =
    Outcome-device (try_acquire_locked-Outcome request tm) i d used h
Step-device (releases index tm) i d other used h = release-device index tm i d other h
Step-device (runs index device tm) i d other used h =
    change-device index (λ r. (mark_running device r).0) tm
      (mark_running-SameHold device (tm.runtime index)) i
    ∙ h
Step-device (stops index device tm) i d other used h =
    change-device index (λ r. (mark_stopped device r).0) tm
      (mark_stopped-SameHold device (tm.runtime index)) i
    ∙ h
Step-device (faults index device tm) i d other used h =
    change-device index (λ r. (mark_fault device r).0) tm
      (mark_fault-SameHold device (tm.runtime index)) i
    ∙ h
Step-device (gains index user tm) i d other used h =
    change-device index (add_user user) tm (add_user-SameHold user (tm.runtime index)) i ∙ h
Step-device (notes index id key info tm) i d other used h =
    change-device index (update_user_stream_info id key info) tm
      (update_user_stream_info-SameHold id key info (tm.runtime index)) i
    ∙ h
Step-device (loses index id tm) i d other used h =
    change-device index (remove_user id) tm (remove_user-SameHold id (tm.runtime index)) i ∙ h

-- After any calls on a new tuner manager, a tuner that holds a device is in use, in the set of tuners in
-- use and in its own state, no other tuner holds the same device, and the next call leaves the tuner its
-- device unless it is the release of this tuner: no search takes it away.
pub Reachable-one_holder :
    {tuners : List TunerConfig} {released : Option ℕ} (tm tm' : TunerManager)
    → Reachable tuners tm
    → Step released tm tm'
    → (i j d : ℕ) → released ≢ some i
    → (tm.runtime i).device ≡ some d
    → (tm.runtime j).device ≡ some d
    → (i ≡ j)
      × (tm.in_use i ≡ true)
      × ((tm.runtime i).in_use ≡ true)
      × ((tm'.runtime i).device ≡ some d)
Reachable-one_holder tm tm' reached step i j d other h k =
    let s = Reachable-IsSound reached in
    let used = s.held i d h in
    (s.apart i j d h k, used, s.agree i ∙ used, Step-device step i d other used h)
