-- ===== src/Fuse/Access/Owners.antt =====
-- The uid that the mounted file system gives an entry (backend/app/fuse_server.py), against the
-- owner's id in the row.
use mathlib.Core.Bool.{false≢true}
use local_ai_search.Prelude.{
  sym, ap, ◌∙◌, UniqueBy-same, find?-none, ℕ, ◌≡◌, true, false, Bool-cases, Option, none, some,
  Option-cases, List, inl, inr, arith, All, All-at, In, In-find?, find?, find?-test, UniqueBy,
  UniqueBy-find?, some_eq, ◌==◌, ==_refl,
}
use local_ai_search.Models.{User}
use local_ai_search.Fuse.Access.{or_zero, owner_uid_of}

-- No account is root's, for which 0 stands.
other_uid :
    (found : Option ℕ) (uid : ℕ)
    → (0 == uid) ≡ false
    → some_eq found uid ≡ false
    → (or_zero found == uid) ≡ false
other_uid none uid real e = real
other_uid (some n) uid real e = e

-- The user's account in the file system: a uid that no other user has and that is not root's.
pub record OwnUid (users : List User) (user : User) (uid : ℕ) : Type 0 where
  pub ids : UniqueBy (λ u. u.id) users
  pub row : In user users
  pub account : user.unix_uid ≡ some uid
  pub real : (0 == uid) ≡ false
  pub alone : All (λ v. some_eq v.unix_uid uid ≡ true → v.id ≡ user.id) users

module _ (users : List User) (user : User) (uid : ℕ) where
  nobody : (0 == uid) ≡ false → (owner_uid_of users none == uid) ≡ false
  unfolding owner_uid_of
  nobody real = real

  own_uid :
      UniqueBy (λ u. u.id) users
      → In user users
      → user.unix_uid ≡ some uid
      → owner_uid_of users (some user.id) ≡ uid
  unfolding owner_uid_of
  own_uid ids m account = rw (owner_uid_of, UniqueBy-find? (λ u. u.id) users ids m, account)

  foreign_uid :
      (o : ℕ)
      → (0 == uid) ≡ false
      → All (λ v. some_eq v.unix_uid uid ≡ true → v.id ≡ user.id) users
      → (o == user.id) ≡ false
      → (owner_uid_of users (some o) == uid) ≡ false
  unfolding owner_uid_of
  foreign_uid o real alone e = elim (Option-cases (find? (λ u. u.id == o) users)) [
    | inl t ↦ rw (owner_uid_of, t, real)
    | inr (v, t) ↦ elim (Bool-cases (some_eq v.unix_uid uid)) [
      | inl w ↦
          let same : v.id ≡ user.id = All-at _ users alone (In-find? _ users t) w in
          let test = find?-test (λ u. u.id == o) users t in absurd (ground arith)
      | inr w ↦ rw (owner_uid_of, t, other_uid v.unix_uid uid real w)
    ]
  ]

-- The owner's uid is the caller's exactly when the row names the caller as its owner.
pub owner_uid_of-eq :
    (users : List User) (owner_id : Option ℕ) (user : User) (uid : ℕ)
    → OwnUid users user uid
    → (owner_uid_of users owner_id == uid) ≡ some_eq owner_id user.id
owner_uid_of-eq users none user uid own = nobody users user uid own.real
owner_uid_of-eq users (some o) user uid own = elim (Bool-cases (o == user.id)) [
  | inl e ↦
      let same : o ≡ user.id = ground arith in
      rw (same, own_uid users user uid own.ids own.row own.account, ==_refl uid, ==_refl user.id)
  | inr e ↦ rw (e, foreign_uid users user uid o own.real own.alone e)
]

-- The caller is found by the uid.
pub user_of_uid :
    (users : List User) (user : User) (uid : ℕ)
    → OwnUid users user uid
    → find? (λ v. some_eq v.unix_uid uid) users ≡ some user
user_of_uid users user uid own = elim (Option-cases (find? (λ v. some_eq v.unix_uid uid) users)) [
  | inl t ↦
      let missing = find?-none (λ v. some_eq v.unix_uid uid) users t own.row in
      absurd (false≢true (sym missing ∙ rw (own.account, ==_refl uid)))
  | inr (v, t) ↦
      let m = In-find? (λ v. some_eq v.unix_uid uid) users t in
      let test = find?-test (λ v. some_eq v.unix_uid uid) users t in
      let same =
        UniqueBy-same (λ u. u.id) users own.ids m own.row (All-at _ users own.alone m test) in
      t ∙ ap some same
]
