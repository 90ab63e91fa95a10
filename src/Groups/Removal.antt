-- ===== src/Groups/Removal.antt =====
-- What `delete_group` of backend/app/routers/groups.py leaves of a group.
use mathlib.Core.Path.{subst}
use local_ai_search.Prelude.{
  ℕ, ◌≡◌, refl, sym, Bool, true, false, not, none, List, some_eq, ◌==◌, All, All-true,
  All-update_where, All-select_test,
}
use local_ai_search.Models.{User, Group, GroupMember, Folder, Document, Db}
use local_ai_search.Session.{reply, required, found_row, reply-injective}
use local_ai_search.Permissions.{is_admin}
use local_ai_search.Groups.{group_of, clear_documents, clear_folders, delete_group}

documents_cleared :
    (group_id : ℕ) (docs : List Document)
    → All (λ d. some_eq d.group_id group_id ≡ false) (clear_documents group_id docs)
documents_cleared group_id docs =
    All-update_where (λ _. Unit {0}) (λ d. some_eq d.group_id group_id ≡ false)
      (λ d. some_eq d.group_id group_id) (λ d. record d { group_id = none }) docs (λ d t u. refl)
      (λ d t u. t) (All-true docs)

folders_cleared :
    (group_id : ℕ) (folders : List Folder)
    → All (λ f. some_eq f.group_id group_id ≡ false) (clear_folders group_id folders)
folders_cleared group_id folders =
    All-update_where (λ _. Unit {0}) (λ f. some_eq f.group_id group_id ≡ false)
      (λ f. some_eq f.group_id group_id) (λ f. record f { group_id = none }) folders (λ f t u. refl)
      (λ f t u. t) (All-true folders)

not-false : (b : Bool) → not b ≡ true → b ≡ false
not-false true e = sym e
not-false false e = refl

-- A group is deleted only by an administrator, and then nothing is left of it: no group has its id, no
-- member is in it, and no document and no folder refers to it.
pub delete_group-forgets :
    (group_id : ℕ) (user : User) (db db' : Db)
    → delete_group group_id user db ≡ reply db'
    → (is_admin user ≡ true)
      × All (λ (g : Group). (g.id == group_id) ≡ false) db'.groups
      × All (λ (m : GroupMember). (m.group_id == group_id) ≡ false) db'.members
      × All (λ (d : Document). some_eq d.group_id group_id ≡ false) db'.documents
      × All (λ (f : Folder). some_eq f.group_id group_id ≡ false) db'.folders
unfolding delete_group
delete_group-forgets group_id user db db' e =
    let (admin, e1) = required (is_admin user) 403 _ e in
    let (group, row, e2) = found_row (group_of group_id db.groups) 404 _ e1 in
    subst
      (λ (d : Db).
        (is_admin user ≡ true)
        × All (λ (g : Group). (g.id == group_id) ≡ false) d.groups
        × All (λ (m : GroupMember). (m.group_id == group_id) ≡ false) d.members
        × All (λ (d : Document). some_eq d.group_id group_id ≡ false) d.documents
        × All (λ (f : Folder). some_eq f.group_id group_id ≡ false) d.folders)
      (reply-injective _ db' e2)
      (
        admin,
        All-select_test _ _ db.groups (λ g t. not-false _ t),
        All-select_test _ _ db.members (λ m t. not-false _ t),
        documents_cleared group_id db.documents,
        folders_cleared group_id db.folders,
      )
