-- ===== src/Tuner/Users.antt =====
-- The users of a tuner are counted by their references, and one without references is gone.
use mahiron.Base.{
  ℕ, suc, ◌-◌, ◌<◌, ◌≡◌, refl, sym, ◌∙◌, ap, false, ◌==◌, if◌then◌else◌, Option, none, some, arith,
  Bool-cases, Option-cases, inl, inr, ==_refl, ==_iff,
}
use mahiron.Base.Assoc.{Map, lookup, insert, lookup-insert, lookup-remove}
use mahiron.Tuner.{User, TrackedUser, TunerRuntime, track, refresh, add_user, untrack, remove_user}

-- Every user of the tuner has a reference.
abbrev pub IsCounted : TunerRuntime → Type 0
IsCounted r = (k : ℕ) (tracked : TrackedUser) → lookup k r.users ≡ some tracked → 0 < tracked.refs

-- What is left of a user that stood under an ID before the same user came once more and went: the former
-- references, and the newcomer's data with the former stream information where it brings none.
abbrev pub left_behind : User → Option TrackedUser → Option TrackedUser
left_behind user none = none
left_behind user (some tracked) = some (record {
  refs = tracked.refs;
  user = record user {
    stream_info = elim user.stream_info [ none ↦ tracked.user.stream_info | some info ↦ some info ];
  };
})

refresh-user :
    (user : User) (tracked : TrackedUser)
    → some (record (refresh tracked user) { refs = tracked.refs }) ≡ left_behind user (some tracked)
unfolding refresh
refresh-user user tracked = elim (Option-cases user.stream_info) [
  | inl e ↦ rw (e, refresh) refl
  | inr (info, e) ↦
      rw (e, refresh)
        (ap
          (λ found.
            some (record { user = record user { stream_info = found }; refs = tracked.refs }))
          e)
]

remove_user-eq :
    (id : ℕ) (r : TunerRuntime) (tracked : TrackedUser)
    → lookup id r.users ≡ some tracked
    → (remove_user id r).users ≡ untrack id tracked r.users
unfolding remove_user
remove_user-eq id r tracked e = rw (e, remove_user) refl

-- The user that was not there before, and the one that was.
untrack-new :
    (id k : ℕ) (user : User) (users : Map TrackedUser)
    → lookup k (
        untrack id
          (record { user = user; refs = 1 })
          (insert id (record { user = user; refs = 1 }) users))
      ≡ (if id == k then none else lookup k users)
unfolding untrack
untrack-new id k user users =
    let added : Map TrackedUser = insert id (record { user = user; refs = 1 }) users in
    ground
      (arith, lookup-remove id k added, lookup-insert id k (record { user = user; refs = 1 }) users)

untrack-known :
    (id k n : ℕ) (tracked : TrackedUser) (users : Map TrackedUser)
    → tracked.refs ≡ suc n
    → 0 < n
    → lookup k (untrack id tracked (insert id tracked users))
      ≡ (if id == k then some (record tracked { refs = n }) else lookup k users)
unfolding untrack
untrack-known id k n tracked users e h =
    let many : (tracked.refs == 1) ≡ false = ground arith in
    let same : tracked.refs - 1 ≡ n = omega arith in
    let left : TrackedUser = record tracked { refs = tracked.refs - 1 } in
    let before : left ≡ record tracked { refs = n } = ap (λ m. record tracked { refs = m }) same in
    let again = lookup-insert id k left (insert id tracked users) in
    rw (many, untrack)
      (again ∙ elim (Bool-cases (id == k)) [
        | inl q ↦ rw q (ap some before)
        | inr q ↦ rw q (lookup-insert id k tracked users ∙ rw q refl)
      ])

-- A user with an ID is put in place.
add_user-eq :
    (user : User) (r : TunerRuntime) (found : Option TrackedUser)
    → 0 < user.id
    → lookup user.id r.users ≡ found
    → add_user user r ≡ record r { users = insert user.id (track found user) r.users }
unfolding add_user
add_user-eq user r found named e =
    let known : (user.id == 0) ≡ false = ground arith in
    rw known (ap (λ t. record r { users = insert user.id (track t user) r.users }) e)

returned :
    (user : User) (r : TunerRuntime) (k : ℕ)
    → 0 < user.id
    → (before : Option TrackedUser) → lookup user.id r.users ≡ before
    → ((tracked : TrackedUser) → before ≡ some tracked → 0 < tracked.refs)
    → lookup k (remove_user user.id (add_user user r)).users
      ≡ (if user.id == k then left_behind user before else lookup k r.users)
unfolding track refresh
returned user r k named before e counted =
    let id = user.id in
    let new = track before user in
    let there : lookup id (insert id new r.users) ≡ some new =
      lookup-insert id id new r.users ∙ rw (==_refl id) refl in
    ap (λ x. lookup k (remove_user id x).users) (add_user-eq user r before named e)
    ∙ ap (lookup k) (remove_user-eq id (record r { users = insert id new r.users }) new there)
    ∙ left before counted
  where
    left :
        (before : Option TrackedUser)
        → ((tracked : TrackedUser) → before ≡ some tracked → 0 < tracked.refs)
        → lookup k
            (untrack user.id (track before user) (insert user.id (track before user) r.users))
          ≡ (if user.id == k then left_behind user before else lookup k r.users)
    left none counted = untrack-new user.id k user r.users
    left (some tracked) counted =
        untrack-known user.id k tracked.refs (refresh tracked user) r.users refl
          (counted tracked refl)
        ∙ ap (λ x. if user.id == k then x else lookup k r.users) (refresh-user user tracked)

left_behind-refs :
    (user : User) (before : Option TrackedUser) (tracked : TrackedUser)
    → ((old : TrackedUser) → before ≡ some old → 0 < old.refs)
    → left_behind user before ≡ some tracked
    → 0 < tracked.refs
left_behind-refs user none tracked counted e = cc
left_behind-refs user (some old) tracked counted e =
    let positive = counted old refl in let same : old.refs ≡ tracked.refs = cc in omega arith

-- On a tuner where every user has a reference, `addUser` for a user with an ID, then `removeUser` for this
-- ID, leaves every ID what it had: none under this ID if there was none, else the user with its former
-- references and the newcomer's data; and every user still has a reference.
pub remove_user-add_user :
    (user : User) (r : TunerRuntime)
    → 0 < user.id
    → IsCounted r
    → ((k : ℕ)
        → lookup k (remove_user user.id (add_user user r)).users
          ≡ (if user.id == k then left_behind user (lookup k r.users) else lookup k r.users))
      × IsCounted (remove_user user.id (add_user user r))
remove_user-add_user user r named counted = (
  after,
  λ k tracked e. elim (Bool-cases (user.id == k)) [
    | inl same ↦
        left_behind-refs user (lookup k r.users) tracked (counted k)
          (sym (after k ∙ rw same refl) ∙ e)
    | inr other ↦ counted k tracked (sym (after k ∙ rw other refl) ∙ e)
  ],
)
  where
    after :
        (k : ℕ)
        → lookup k (remove_user user.id (add_user user r)).users
          ≡ (if user.id == k then left_behind user (lookup k r.users) else lookup k r.users)
    after k =
        returned user r k named (lookup user.id r.users) refl (counted user.id)
        ∙ elim (Bool-cases (user.id == k)) [
          | inl same ↦
              let e : user.id ≡ k = (==_iff user.id k).0 same in
              rw same (ap (λ j. left_behind user (lookup j r.users)) e)
          | inr other ↦ rw other refl
        ]
