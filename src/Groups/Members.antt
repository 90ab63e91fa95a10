-- ===== src/Groups/Members.antt =====
-- `add_member` and `remove_member` of backend/app/routers/groups.py against the groups of a user that
-- backend/app/services/permissions.py reads.
use mathlib.Core.Path.{subst}
use local_ai_search.Prelude.{
  ℕ, ◌≡◌, refl, Bool, true, not, ◌&&◌, ◌||◌, List, [], ◌∷◌, ◌++◌, arith, ◌==◌, contains, find?,
  is_some, select,
}
use local_ai_search.Models.{User, GroupMember, Db}
use local_ai_search.Session.{reply, required, found_row, reply-injective}
use local_ai_search.Permissions.{is_admin, get_user_group_ids}
use local_ai_search.Groups.{group_of, is_membership, add_member, remove_member}

-- The user is in the group.
abbrev pub is_in : (user_id group_id : ℕ) → List GroupMember → Bool
is_in user_id group_id members = contains (get_user_group_ids members user_id) group_id

is_in-append :
    (u g : ℕ) (members : List GroupMember) (m : GroupMember)
    → is_in u g (members ++ m ∷ []) ≡ (is_in u g members || ((u == m.user_id) && (g == m.group_id)))
unfolding get_user_group_ids
is_in-append u g [] m = ground arith
is_in-append u g (m' ∷ members) m = ground (arith, is_in-append u g members m)

is_in-without :
    (u g user_id group_id : ℕ) (members : List GroupMember)
    → is_in u g (select (λ m. not (is_membership group_id user_id m)) members)
      ≡ (is_in u g members && not ((u == user_id) && (g == group_id)))
unfolding get_user_group_ids
is_in-without u g user_id group_id [] = refl
is_in-without u g user_id group_id (m ∷ members) =
    ground (arith, is_in-without u g user_id group_id members)

-- `add_member` is for administrators, and puts one user in one group: every user is afterwards in the
-- groups that the user was in, and the new member in the new group too.
pub add_member-is_in :
    (group_id user_id : ℕ) (user : User) (db db' : Db) (u g : ℕ)
    → add_member group_id user_id user db ≡ reply db'
    → (is_admin user ≡ true)
      × (is_in u g db'.members ≡ (is_in u g db.members || ((u == user_id) && (g == group_id))))
unfolding add_member
add_member-is_in group_id user_id user db db' u g e =
    let (admin, e1) = required (is_admin user) 403 _ e in
    let (group, row, e2) = found_row (group_of group_id db.groups) 404 _ e1 in
    let (member, row', e3) = found_row (find? (λ v. v.id == user_id) db.users) 404 _ e2 in
    let (fresh, e4) =
      required (not (is_some (find? (is_membership group_id user_id) db.members))) 409 _ e3 in
    subst
      (λ (d : Db).
        (is_admin user ≡ true)
        × (is_in u g d.members ≡ (is_in u g db.members || ((u == user_id) && (g == group_id)))))
      (reply-injective _ db' e4) (admin, is_in-append u g db.members _)

-- `remove_member` is for administrators, and takes one user out of one group: every other membership is
-- as it was, and that one is no more.
pub remove_member-is_in :
    (group_id user_id : ℕ) (user : User) (db db' : Db) (u g : ℕ)
    → remove_member group_id user_id user db ≡ reply db'
    → (is_admin user ≡ true)
      × (is_in u g db'.members ≡ (is_in u g db.members && not ((u == user_id) && (g == group_id))))
unfolding remove_member
remove_member-is_in group_id user_id user db db' u g e =
    let (admin, e1) = required (is_admin user) 403 _ e in
    let (member, row, e2) =
      found_row (find? (is_membership group_id user_id) db.members) 404 _ e1 in
    subst
      (λ (d : Db).
        (is_admin user ≡ true)
        × (is_in u g d.members ≡ (is_in u g db.members && not ((u == user_id) && (g == group_id)))))
      (reply-injective _ db' e2) (admin, is_in-without u g user_id group_id db.members)
