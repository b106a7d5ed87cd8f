-- ===== src/Tuner/Manager/Visit.antt =====
-- One round of the search over the tuners: a free tuner is taken, any other is passed.
use mahiron.Base.{
  ℕ, zero, suc, ◌+◌, ◌%◌, ◌≡◌, refl, ap, ◌∙◌, Bool, true, false, not, ◌&&◌, List, [], ◌∷◌, length,
  if◌then◌else◌, none, some, arith, get_elem?,
}
use mahiron.Base.Members.{mem}
use mahiron.Tuner.{TunerConfig, TunerRuntime, usable, reserve, better_grab_candidate}
use mahiron.Tuner.Manager.{
  TunerManager, Request, ManagedDevice, AcquireAttempt, stored, reserve_locked, is_other,
  settle_attempt, visit,
}

-- A tuner that the request may have: it is enabled, receives the type, has a source, and has neither a
-- fault nor a user.
abbrev pub fits : Request → ℕ → TunerConfig → TunerManager → Bool
fits request index item tm =
    not item.is_disabled
    && (mem request.channel_type item.types
        && (usable item && (not (tm.runtime index).fault && not (tm.in_use index))))

-- A tuner that the request could have but for its users.
abbrev pub is_busy : Request → ℕ → TunerConfig → TunerManager → Bool
is_busy request index item tm =
    not item.is_disabled
    && (mem request.channel_type item.types
        && (usable item && (not (tm.runtime index).fault && tm.in_use index)))

unfoldable pub is_free : Request → TunerManager → ℕ → Bool
is_free request tm index = elim (get_elem? tm.tuners index) [
  | none ↦ false
  | some item ↦ fits request index item tm
]

-- The tuners in use that the request could have, in the order of the search.
unfoldable pub busy_from : ℕ → ℕ → ℕ → Request → TunerManager → List (ℕ × TunerRuntime)
busy_from zero start offset request tm = []
busy_from (suc n) start offset request tm =
    let index = (start + offset) % length tm.tuners in
    let rest = busy_from n start (suc offset) request tm in
    elim (get_elem? tm.tuners index) [
      | none ↦ rest
      | some item ↦
          if is_busy request index item tm then (item.name, tm.runtime index) ∷ rest else rest
    ]

-- The state behind a reservation.
abbrev pub taken : Request → ℕ → TunerManager → TunerManager
taken request index tm = record tm {
  in_use = stored index true tm.in_use;
  runtime =
      stored index
        (reserve tm.devices request.priority request.requested request.tuned (tm.runtime index))
        tm.runtime;
  next_by_type = stored request.channel_type (suc index % length tm.tuners) tm.next_by_type;
  devices = suc tm.devices;
}

abbrev pub managed : ℕ → TunerManager → ManagedDevice
managed index tm = record { device = tm.devices; tuner = index }

-- The four tests of the loop's body, one behind the other.
branch-taken {ℓ} :
    {A : Type ℓ} (other can fault used : Bool) (w x y z t : A)
    → other ≡ false
    → can ≡ true
    → fault ≡ false
    → used ≡ false
    → (if other then w else if not can then x else if fault then y else if used then z else t) ≡ t
branch-taken other can fault used w x y z t e f g h = rw e (rw f (rw g (rw h refl)))

reserve_locked-taken :
    (request : Request) (index : ℕ) (item : TunerConfig) (tm : TunerManager)
    → usable item ≡ true
    → reserve_locked index item request tm ≡ (
      some (managed index tm),
      record (taken request index tm) { next_by_type = tm.next_by_type },
    )
unfolding reserve_locked
reserve_locked-taken request index item tm can = rw (can, reserve_locked) refl

settle_attempt-taken :
    (request : Request) (index : ℕ) (item : TunerConfig) (a : AcquireAttempt) (tm : TunerManager)
    → usable item ≡ true
    → settle_attempt request index a (reserve_locked index item request tm)
      ≡ (record a { device = some (managed index tm) }, taken request index tm)
unfolding settle_attempt
settle_attempt-taken request index item a tm can =
    ap (settle_attempt request index a) (reserve_locked-taken request index item tm can)

pub visit-taken :
    (request : Request) (index : ℕ) (item : TunerConfig) (a : AcquireAttempt) (tm : TunerManager)
    → fits request index item tm ≡ true
    → visit request index item a tm ≡ (
      record a { found = true; usable_found = true; device = some (managed index tm) },
      taken request index tm,
    )
unfolding visit
visit-taken request index item a tm h =
    let mine : is_other request item ≡ false = unfold is_other in ground arith in
    let can : usable item ≡ true = ground arith in
    let whole : (tm.runtime index).fault ≡ false = ground arith in
    let idle : tm.in_use index ≡ false = ground arith in
    let here : AcquireAttempt = record a { found = true } in
    let seen : AcquireAttempt = record a { found = true; usable_found = true } in
    let busy : AcquireAttempt = record seen {
      grab = better_grab_candidate a.grab item.name (tm.runtime index) request.priority;
    } in
    branch-taken (is_other request item) (usable item) (tm.runtime index).fault (tm.in_use index)
      (a, tm) (here, tm) (seen, tm) (busy, tm)
      (settle_attempt request index seen (reserve_locked index item request tm)) mine can whole idle
    ∙ settle_attempt-taken request index item seen tm can

-- A tuner that is passed: no device, no change, and a candidate where it is busy.
pub record Passed (request : Request) (index : ℕ) (item : TunerConfig) (a : AcquireAttempt)
    (tm : TunerManager) (r : AcquireAttempt × TunerManager) : Type 0 where
  pub no_device : r.0.device ≡ a.device
  pub same : r.1 ≡ tm
  pub grabbed : r.0.grab ≡ (
      if is_busy request index item tm
      then better_grab_candidate a.grab item.name (tm.runtime index) request.priority
      else a.grab)

Passed-branch :
    (other can fault used : Bool) (request : Request) (index : ℕ) (item : TunerConfig)
    (a here seen busy : AcquireAttempt) (tm : TunerManager) (t : AcquireAttempt × TunerManager)
    → (not other && (can && (not fault && not used))) ≡ false
    → is_busy request index item tm ≡ (not other && (can && (not fault && used)))
    → (here.device ≡ a.device) × (here.grab ≡ a.grab)
    → (seen.device ≡ a.device) × (seen.grab ≡ a.grab)
    → (busy.device ≡ a.device)
      × (busy.grab ≡ better_grab_candidate a.grab item.name (tm.runtime index) request.priority)
    → Passed request index item a tm (
        if other
        then (a, tm)
        else if not can
        then (here, tm)
        else if fault
        then (seen, tm)
        else if used
        then (busy, tm)
        else t)
Passed-branch true can fault used request index item a here seen busy tm t h q x y z = record {
  no_device = refl;
  same = refl;
  grabbed = rw q refl;
}
Passed-branch false false fault used request index item a here seen busy tm t h q x y z = record {
  no_device = x.0;
  same = refl;
  grabbed = rw q (x.1);
}
Passed-branch false true true used request index item a here seen busy tm t h q x y z = record {
  no_device = y.0;
  same = refl;
  grabbed = rw q (y.1);
}
Passed-branch false true false true request index item a here seen busy tm t h q x y z = record {
  no_device = z.0;
  same = refl;
  grabbed = rw q (z.1);
}
Passed-branch false true false false request index item a here seen busy tm t h q x y z = cc

pub visit-Passed :
    (request : Request) (index : ℕ) (item : TunerConfig) (a : AcquireAttempt) (tm : TunerManager)
    → fits request index item tm ≡ false
    → Passed request index item a tm (visit request index item a tm)
unfolding visit is_other
visit-Passed request index item a tm h =
    let here : AcquireAttempt = record a { found = true } in
    let seen : AcquireAttempt = record a { found = true; usable_found = true } in
    let busy : AcquireAttempt = record seen {
      grab = better_grab_candidate a.grab item.name (tm.runtime index) request.priority;
    } in
    Passed-branch (is_other request item) (usable item) (tm.runtime index).fault (tm.in_use index)
      request index item a here seen busy tm
      (settle_attempt request index seen (reserve_locked index item request tm)) (ground arith)
      (ground arith) (refl, refl) (refl, refl) (refl, refl)
