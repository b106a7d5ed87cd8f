-- ===== src/Session/Shared.antt =====
-- Creations are shared: one for a key at a time, none beside a live session, and each is completed once.
use mahiron.Base.{
  ℕ, ◌<◌, ◌≡◌, ◌⊎◌, inl, inr, refl, sym, ap, ◌∙◌, subst, Bool, true, false, [], ◌==◌, if◌then◌else◌,
  Option, none, some, arith, Bool-cases, Option-cases, ==_refl, ==_iff,
}
use mahiron.Base.Assoc.{Map, lookup, insert, remove, lookup-insert, lookup-remove}
use mahiron.Session.{
  SessionEntry, SessionCreate, SessionRegistry, new_session_registry, AcquireResult, pending,
  create, refused, start_create, join_or_start, acquire_absent, acquire, add_locked, settle_create,
  complete_create, remove_session, remove_if_same, begin_shutdown, clear,
}

-- The registry's invariant, read through its maps.
pub record IsShared (r : SessionRegistry) : Type 0 where
  pub apart : (key pointer : ℕ) → lookup key r.creates ≡ some pointer → lookup key r.sessions ≡ none
  pub known : (key pointer : ℕ) → lookup key r.creates ≡ some pointer → pointer < r.next
  pub open_ :
      (key pointer : ℕ)
      → lookup key r.creates ≡ some pointer
      → lookup pointer r.store ≡ some (record { done = false; failure = none; session = none })
  pub single :
      (key other pointer : ℕ)
      → lookup key r.creates ≡ some pointer
      → lookup other r.creates ≡ some pointer
      → key ≡ other

-- One call of a method; a creation is completed by its owner, who got it under its key.
pub data Step : SessionRegistry → SessionRegistry → Type 0 where
  acquired : (key : ℕ) (r : SessionRegistry) → Step r (acquire key r).0
  settled :
      (key pointer : ℕ) (session : Option ℕ) (new : SessionEntry) (failure : Option ℕ)
      (r r' : SessionRegistry)
      → lookup key r.creates ≡ some pointer
      → complete_create key pointer session new failure r ≡ some r'
      → Step r r'
  removed : (key : ℕ) (r : SessionRegistry) → Step r (remove_session key r)
  removed_same : (key session : ℕ) (r : SessionRegistry) → Step r (remove_if_same key session r)
  shut : (r : SessionRegistry) → Step r (begin_shutdown r).0
  cleared : (r : SessionRegistry) → Step r (clear r)

module _ {ℓ} {V : Type ℓ} (key k : ℕ) (m : Map V) where
  -- What stands under a key after a write, and after a deletion.
  insert-cases :
      (new v : V)
      → lookup k (insert key new m) ≡ some v
      → ((key ≡ k) × (new ≡ v)) ⊎ ((lookup k m ≡ some v) × ((key == k) ≡ false))
  insert-cases new v e = elim (Bool-cases (key == k)) [
    | inl same ↦
        let read : lookup k (insert key new m) ≡ some new =
          lookup-insert key k new m ∙ rw same refl in
        inl ((==_iff key k).0 same, cc (read, e))
    | inr other ↦
        let read : lookup k (insert key new m) ≡ lookup k m =
          lookup-insert key k new m ∙ rw other refl in
        inr (sym read ∙ e, other)
  ]

  remove-cases :
      (v : V) → lookup k (remove key m) ≡ some v → (lookup k m ≡ some v) × ((key == k) ≡ false)
  remove-cases v e = elim (Bool-cases (key == k)) [
    | inl same ↦
        let read : lookup k (remove key m) ≡ none = lookup-remove key k m ∙ rw same refl in
        cc (read, e)
    | inr other ↦
        let read : lookup k (remove key m) ≡ lookup k m = lookup-remove key k m ∙ rw other refl in
        (sym read ∙ e, other)
  ]

  insert_other : (new : V) → (key == k) ≡ false → lookup k (insert key new m) ≡ lookup k m
  insert_other new other = lookup-insert key k new m ∙ rw other refl

  remove-none : lookup k m ≡ none → lookup k (remove key m) ≡ none
  remove-none e =
      lookup-remove key k m ∙ elim (Bool-cases (key == k)) [ inl s ↦ rw s refl | inr o ↦ rw o e ]

insert_self {ℓ} :
    {V : Type ℓ} (key : ℕ) (new : V) (m : Map V) → lookup key (insert key new m) ≡ some new
insert_self key new m = lookup-insert key key new m ∙ rw (==_refl key) refl

apart_ne : (a b : ℕ) → b < a → (a == b) ≡ false
apart_ne a b h = ground arith

start_create-IsShared :
    (key : ℕ) (r : SessionRegistry)
    → lookup key r.sessions ≡ none
    → lookup key r.creates ≡ none
    → IsShared r
    → IsShared (start_create key r)
unfolding start_create
start_create-IsShared key r no_session no_create h = record {
  apart = λ k p e. elim (insert-cases key k r.creates r.next p e) [
    | inl (same, _) ↦ subst (λ j. lookup j r.sessions ≡ none) same no_session
    | inr (old, _) ↦ h.apart k p old
  ];
  known = λ k p e. elim (insert-cases key k r.creates r.next p e) [
    | inl (_, same) ↦ omega arith
    | inr (old, _) ↦ omega (arith, h.known k p old)
  ];
  open_ = λ k p e. elim (insert-cases key k r.creates r.next p e) [
    | inl (_, same) ↦
        subst
          (λ q.
            lookup q
              (insert r.next (record { done = false; failure = none; session = none }) r.store)
            ≡ some (record { done = false; failure = none; session = none }))
          same
          (insert_self r.next (record { done = false; failure = none; session = none }) r.store)
    | inr (old, _) ↦
        insert_other r.next p r.store (record { done = false; failure = none; session = none })
          (apart_ne r.next p (h.known k p old))
        ∙ h.open_ k p old
  ];
  single = λ k j p e f. elim (insert-cases key k r.creates r.next p e) [
    | inl (a, b) ↦ elim (insert-cases key j r.creates r.next p f) [
      | inl (c, d) ↦ sym a ∙ c
      | inr (old, _) ↦ absurd (omega (arith, h.known j p old))
    ]
    | inr (old, _) ↦ elim (insert-cases key j r.creates r.next p f) [
      | inl (c, d) ↦ absurd (omega (arith, h.known k p old))
      | inr (older, _) ↦ h.single k j p old older
    ]
  ];
}

either :
    (closing : Bool) (x y : SessionRegistry × AcquireResult)
    → IsShared x.0
    → IsShared y.0
    → IsShared (if closing then x else y).0
either true x y h k = h
either false x y h k = k

start_or_join-IsShared :
    (key : ℕ) (r : SessionRegistry) (found : Option ℕ)
    → lookup key r.creates ≡ found
    → lookup key r.sessions ≡ none
    → IsShared r
    → IsShared (join_or_start key r found).0
start_or_join-IsShared key r none e absent h = start_create-IsShared key r absent e h
start_or_join-IsShared key r (some p) e absent h = h

acquire-IsShared : (key : ℕ) (r : SessionRegistry) → IsShared r → IsShared (acquire key r).0
unfolding acquire acquire_absent
acquire-IsShared key r h = elim (Option-cases (lookup key r.sessions)) [
  | inr (found, e) ↦ rw (e, acquire) h
  | inl absent ↦
      rw (absent, acquire)
        (either r.shutting_down (r, refused) (join_or_start key r (lookup key r.creates)) h
          (start_or_join-IsShared key r (lookup key r.creates) refl absent h))
]

acquire-running :
    (key : ℕ) (r : SessionRegistry) (found : Option ℕ)
    → lookup key r.sessions ≡ none
    → r.shutting_down ≡ false
    → lookup key r.creates ≡ found
    → acquire key r ≡ join_or_start key r found
unfolding acquire acquire_absent
acquire-running key r found absent running e =
    let open_ : acquire key r ≡ acquire_absent key r = rw (absent, acquire) refl in
    open_
    ∙ ap (λ b. if b then (r, refused) else join_or_start key r (lookup key r.creates)) running
    ∙ ap (join_or_start key r) e

-- Where no session lives under a key, no creation is under way and no shutdown has begun, `acquire`
-- starts a creation, and every further `acquire` of the key joins it and changes nothing.
pub acquire-joins :
    (key : ℕ) (r : SessionRegistry)
    → lookup key r.sessions ≡ none
    → r.shutting_down ≡ false
    → lookup key r.creates ≡ none
    → (acquire key r ≡ (start_create key r, create r.next))
      × (acquire key (start_create key r) ≡ (start_create key r, pending r.next))
unfolding start_create
acquire-joins key r absent running fresh = (
  acquire-running key r none absent running fresh,
  acquire-running key (start_create key r) (some r.next) absent running
      (insert_self key r.next r.creates),
)

-- The registry behind a completion: its creation is gone, and no other key lost its absence.
finish-IsShared :
    (key pointer : ℕ) (object : SessionCreate) (sessions : Map SessionEntry) (r : SessionRegistry)
    → lookup key r.creates ≡ some pointer
    → ((k : ℕ) → (key == k) ≡ false → lookup k r.sessions ≡ none → lookup k sessions ≡ none)
    → IsShared r
    → IsShared (record r {
      sessions = sessions;
      creates = remove key r.creates;
      store = insert pointer object r.store;
    })
finish-IsShared key pointer object sessions r own absent h = record {
  apart = λ k p e.
      let (old, other) = remove-cases key k r.creates p e in absent k other (h.apart k p old);
  known = λ k p e. h.known k p (remove-cases key k r.creates p e).0;
  open_ = λ k p e.
      let (old, other) = remove-cases key k r.creates p e in
      elim (Bool-cases (pointer == p)) [
        | inl same ↦
            let q : pointer ≡ p = (==_iff pointer p).0 same in
            let mine : key ≡ k =
              h.single key k pointer own (subst (λ x. lookup k r.creates ≡ some x) (sym q) old) in
            absurd (cc ((==_iff key k).1 mine, other))
        | inr differs ↦ insert_other pointer p r.store object differs ∙ h.open_ k p old
      ];
  single = λ k j p e f.
      h.single k j p (remove-cases key k r.creates p e).0 (remove-cases key j r.creates p f).0;
}

settle_create-eq :
    (pointer : ℕ) (session failure : Option ℕ) (r : SessionRegistry)
    → lookup pointer r.store ≡ some (record { done = false; failure = none; session = none })
    → settle_create pointer session failure r
      ≡ some (record r {
        store =
            insert pointer (record { done = true; failure = failure; session = session }) r.store;
      })
unfolding settle_create
settle_create-eq pointer session failure r e = rw (e, settle_create) refl

-- The session under the key of a creation that is completed: the new one, or with an error the one that
-- was there before.
abbrev pub session_after : Option ℕ → SessionEntry → Option SessionEntry → Option SessionEntry
session_after none new before = some new
session_after (some e) new before = before

-- What the completion of a creation leaves behind.
pub record Completed (key pointer : ℕ) (session : Option ℕ) (new : SessionEntry)
    (failure : Option ℕ) (r r' : SessionRegistry) : Type 0 where
  pub shared : IsShared r'
  pub sessions :
      (k : ℕ)
      → lookup k r'.sessions ≡ (
          if key == k then session_after failure new (lookup k r.sessions) else lookup k r.sessions)
  pub creates : (k : ℕ) → lookup k r'.creates ≡ (if key == k then none else lookup k r.creates)
  pub told :
      lookup pointer r'.store ≡ some (record { done = true; failure = failure; session = session })

same_branch {ℓ} : {A : Type ℓ} (b : Bool) (x : A) → x ≡ (if b then x else x)
same_branch true x = refl
same_branch false x = refl

-- On a registry with the invariant, the owner of a creation completes it without closing a channel
-- twice. The invariant holds behind it, the creation is gone, its object tells the waiters the session or
-- the error, and the key has the new session; with an error no session is added, and no other key changes.
pub complete_create-Shared :
    (key pointer : ℕ) (session : Option ℕ) (new : SessionEntry) (failure : Option ℕ)
    (r : SessionRegistry)
    → lookup key r.creates ≡ some pointer
    → IsShared r
    → (r' : SessionRegistry) × (complete_create key pointer session new failure r ≡ some r')
      × Completed key pointer session new failure r r'
unfolding complete_create add_locked
complete_create-Shared key p session new none r own h =
    let r' : SessionRegistry = record r {
      sessions = insert key new r.sessions;
      creates = remove key r.creates;
    } in
    let object : SessionCreate = record { done = true; failure = none; session = session } in
    (
      record r' { store = insert p object r.store },
      settle_create-eq p session none r' (h.open_ key p own),
      record {
        shared =
            finish-IsShared key p object (insert key new r.sessions) r own
              (λ k other e. insert_other key k r.sessions new other ∙ e) h;
        sessions = λ k. lookup-insert key k new r.sessions;
        creates = λ k. lookup-remove key k r.creates;
        told = lookup-insert p p object r.store ∙ rw (==_refl p) refl;
      },
    )
complete_create-Shared key p session new (some e) r own h =
    let r' : SessionRegistry = record r { creates = remove key r.creates } in
    let object : SessionCreate = record { done = true; failure = some e; session = session } in
    (
      record r' { store = insert p object r.store },
      settle_create-eq p session (some e) r' (h.open_ key p own),
      record {
        shared = finish-IsShared key p object r.sessions r own (λ k other absent. absent) h;
        sessions = λ k. same_branch (key == k) (lookup k r.sessions);
        creates = λ k. lookup-remove key k r.creates;
        told = lookup-insert p p object r.store ∙ rw (==_refl p) refl;
      },
    )

-- With the creations untouched and no new session the invariant stays.
fewer_sessions-IsShared :
    (sessions : Map SessionEntry) (closing : Bool) (r : SessionRegistry)
    → ((k : ℕ) → lookup k r.sessions ≡ none → lookup k sessions ≡ none)
    → IsShared r
    → IsShared (record r { sessions = sessions; shutting_down = closing })
fewer_sessions-IsShared sessions closing r absent h = record {
  apart = λ k p e. absent k (h.apart k p e);
  known = h.known;
  open_ = h.open_;
  single = h.single;
}

remove_session-IsShared :
    (key : ℕ) (r : SessionRegistry) → IsShared r → IsShared (remove_session key r)
unfolding remove_session
remove_session-IsShared key r h =
    fewer_sessions-IsShared (remove key r.sessions) r.shutting_down r
      (λ k. remove-none key k r.sessions) h

remove_if_same-IsShared :
    (key session : ℕ) (r : SessionRegistry) → IsShared r → IsShared (remove_if_same key session r)
unfolding remove_if_same
remove_if_same-IsShared key session r h = elim (Option-cases (lookup key r.sessions)) [
  | inl absent ↦ rw (absent, remove_if_same) h
  | inr (found, e) ↦
      rw (e, remove_if_same)
        (elim (Bool-cases (found.session == session)) [
          | inl same ↦ rw same (remove_session-IsShared key r h)
          | inr other ↦ rw other h
        ])
]

Step-IsShared : {r r' : SessionRegistry} → Step r r' → IsShared r → IsShared r'
unfolding begin_shutdown clear
Step-IsShared (acquired key r) h = acquire-IsShared key r h
Step-IsShared (settled key pointer session new failure r r' own e) h =
    let (q, f, k) = complete_create-Shared key pointer session new failure r own h in
    let same : q ≡ r' = cc (e, f) in subst IsShared same k.shared
Step-IsShared (removed key r) h = remove_session-IsShared key r h
Step-IsShared (removed_same key session r) h = remove_if_same-IsShared key session r h
Step-IsShared (shut r) h = fewer_sessions-IsShared r.sessions true r (λ k e. e) h
Step-IsShared (cleared r) h =
    fewer_sessions-IsShared [] r.shutting_down r (λ k e. unfold lookup in refl) h

-- The registries that calls lead to from a new one.
pub data Reachable : SessionRegistry → Type 0 where
  start : Reachable new_session_registry
  then_ : {r r' : SessionRegistry} → Reachable r → Step r r' → Reachable r'

-- After any calls on a new registry, with each creation completed by its owner: a key with a creation
-- under way has no live session, two keys never share a creation, and no creation under way is
-- already completed, so that its owner can complete it and its waiters are released once.
pub Reachable-IsShared : {r : SessionRegistry} → Reachable r → IsShared r
unfolding new_session_registry
Reachable-IsShared start = record {
  apart = λ k p e. unfold lookup in refl;
  known = λ k p e. absurd (nothing k p e);
  open_ = λ k p e. absurd (nothing k p e);
  single = λ k j p e f. absurd (nothing k p e);
}
  where
    nothing : (k p : ℕ) → lookup k [] ≡ some p → ⊥
    nothing k p e = unfold lookup in cc
Reachable-IsShared (then_ before s) = Step-IsShared s (Reachable-IsShared before)
