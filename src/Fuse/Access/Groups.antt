-- ===== src/Fuse/Access/Groups.antt =====
-- The gids of a caller of the mounted file system (backend/app/fuse_server.py), against the
-- caller's groups in the database.
use local_ai_search.Prelude.{
  ℕ, ◌≡◌, refl, true, false, Bool-cases, Option, none, some, sym, List, [], ◌∷◌, map, inl, inr,
  arith, All, In, select, contains, UniqueBy, UniqueBy-find?, some_eq, ==_refl,
}
use local_ai_search.Models.{User, Group, GroupMember}
use local_ai_search.Permissions.{get_user_group_ids, in_group}
use local_ai_search.Fuse.Access.{present, group_gid_of, memberships}

abbrev held : (ids : List ℕ) → List Group → List ℕ
unfolding present
held ids groups = present (map (λ g. g.unix_gid) (select (λ g. contains ids g.id) groups))

present-hit :
    (gid : ℕ) (found : Option ℕ) (rest : List (Option ℕ))
    → found ≡ some gid
    → contains (present (found ∷ rest)) gid ≡ true
unfolding present
present-hit gid found rest e = rw (e, ==_refl gid)

present-later :
    (gid : ℕ) (found : Option ℕ) (rest : List (Option ℕ))
    → contains (present rest) gid ≡ true
    → contains (present (found ∷ rest)) gid ≡ true
unfolding present
present-later gid none rest e = e
present-later gid (some n) rest e = ground arith

present-miss :
    (gid : ℕ) (found : Option ℕ) (rest : List (Option ℕ))
    → some_eq found gid ≡ false
    → contains (present rest) gid ≡ false
    → contains (present (found ∷ rest)) gid ≡ false
unfolding present
present-miss gid none rest t e = e
present-miss gid (some n) rest t e = ground arith

held-yes :
    (ids : List ℕ) (groups : List Group) (group : Group) (gid : ℕ)
    → In group groups
    → group.unix_gid ≡ some gid
    → contains ids group.id ≡ true
    → contains (held ids groups) gid ≡ true
unfolding present
held-yes ids [] group gid m own e = elim m [ ]
held-yes ids (g ∷ groups) group gid (inl same) own e = rw (
  rw same at e,
  present-hit gid g.unix_gid (map (λ g. g.unix_gid) (select (λ g. contains ids g.id) groups))
      (rw same at own),
)
held-yes ids (g ∷ groups) group gid (inr m) own e =
    let later = held-yes ids groups group gid m own e in
    elim (Bool-cases (contains ids g.id)) [
      | inl t ↦ rw (
        t,
        present-later gid g.unix_gid
            (map (λ g. g.unix_gid) (select (λ g. contains ids g.id) groups)) later,
      )
      | inr t ↦ rw (t, later)
    ]

held-no :
    (ids : List ℕ) (groups : List Group) (k gid : ℕ)
    → All (λ h. some_eq h.unix_gid gid ≡ true → h.id ≡ k) groups
    → contains ids k ≡ false
    → contains (held ids groups) gid ≡ false
unfolding present
held-no ids [] k gid alone e = refl
held-no ids (g ∷ groups) k gid alone e =
    let later = held-no ids groups k gid alone.1 e in
    elim (Bool-cases (contains ids g.id)) [
      | inl t ↦ elim (Bool-cases (some_eq g.unix_gid gid)) [
        | inl w ↦
            let same = alone.0 w in absurd (let f : contains ids k ≡ true = rw (sym same) t in cc)
        | inr w ↦ rw (
          t,
          present-miss gid g.unix_gid
              (map (λ g. g.unix_gid) (select (λ g. contains ids g.id) groups)) w later,
        )
      ]
      | inr t ↦ rw (t, later)
    ]

-- The group's number in the file system: a gid that no other group has.
pub record OwnGid (groups : List Group) (group : Group) (gid : ℕ) : Type 0 where
  pub ids : UniqueBy (λ g. g.id) groups
  pub row : In group groups
  pub number : group.unix_gid ≡ some gid
  pub alone : All (λ h. some_eq h.unix_gid gid ≡ true → h.id ≡ group.id) groups

-- The group's gid is among the caller's exactly when the caller is in the group.
pub memberships-in_group :
    (groups : List Group) (members : List GroupMember) (user : User) (group : Group) (gid : ℕ)
    → OwnGid groups group gid
    → contains (memberships groups members user.id) (group_gid_of groups (some group.id))
      ≡ in_group (some group.id) user (some members)
unfolding memberships group_gid_of in_group
memberships-in_group groups members user group gid own =
    let mine = get_user_group_ids members user.id in
    rw (group_gid_of, UniqueBy-find? (λ g. g.id) groups own.ids own.row, own.number)
      (elim (Bool-cases (contains mine group.id)) [
        | inl e ↦ rw (e, held-yes mine groups group gid own.row own.number e)
        | inr e ↦ rw (e, held-no mine groups group.id gid own.alone e)
      ])
