-- ===== src/Permissions.antt =====
-- backend/app/services/permissions.py: who may read and write documents and folders.
-- A query of the database is a comprehension over its table; a SQL condition is a test on a row.
pub mod Visibility
pub mod Format
pub mod Tests
use local_ai_search.Prelude.{
  ℕ, Bool, true, false, ◌&&◌, ◌||◌, Option, none, some, List, [], ◌∷◌, ◌++◌, map, codes, Text,
  text_eq, strip, split, select, any, contains, some_eq, ◌==◌, if◌then◌else◌,
}
use local_ai_search.Models.{Role, User, GroupMember, Folder, Document, Db}

-- The five fields of `inherited_folder_perms`; `none` is the empty dict, which keeps the defaults.
pub record FolderPerms : Type 0 where
  pub group_id : Option ℕ
  pub group_read : Bool
  pub group_write : Bool
  pub others_read : Bool
  pub others_write : Bool

unfoldable pub inherited_folder_perms : Option Folder → Option FolderPerms
inherited_folder_perms none = none
inherited_folder_perms (some parent) = some (record {
  group_id = parent.group_id;
  group_read = parent.group_read;
  group_write = parent.group_write;
  others_read = parent.others_read;
  others_write = parent.others_write;
})

-- The test on one role in the loop of `is_admin`.
role_is_admin : Role → Bool
role_is_admin role =
    if text_eq role.permissions []
    then false
    else any (λ p. text_eq (strip p) (codes "admin")) (split b',' role.permissions)

unfoldable pub is_admin : User → Bool
unfolding role_is_admin strip split
is_admin user = any role_is_admin user.roles

unfoldable pub get_user_group_ids : List GroupMember → ℕ → List ℕ
get_user_group_ids members user_id =
    map (λ m. m.group_id) (select (λ m. m.user_id == user_id) members)

-- `group_id and db is not None`, and the group is one of the user's.
unfoldable pub in_group : Option ℕ → User → Option (List GroupMember) → Bool
in_group none user members = false
in_group (some g) user none = false
in_group (some g) user (some members) = contains (get_user_group_ids members user.id) g

-- `db` is the `group_members` table of the session, if one is given.
unfoldable pub can_access_document :
    Document → User → (need_write : Bool) → Option (List GroupMember) → Bool
can_access_document doc user need_write db =
    if is_admin user
    then true
    else if some_eq doc.owner_id user.id
    then true
    else if in_group doc.group_id user db
    then (if need_write then doc.group_write else doc.group_read)
    else if need_write
    then doc.others_write
    else doc.others_read

unfoldable pub can_access_folder :
    Folder → User → (need_write : Bool) → Option (List GroupMember) → Bool
can_access_folder folder user need_write db =
    if is_admin user
    then true
    else if some_eq folder.owner_id user.id
    then true
    else if in_group folder.group_id user db
    then (if need_write then folder.group_write else folder.group_read)
    else if need_write
    then folder.others_write
    else folder.others_read

-- `column.in_(values)`: false of a NULL column
abbrev pub in_values : Option ℕ → List ℕ → Bool
in_values none values = false
in_values (some x) values = contains values x

abbrev nonempty : List ℕ → Bool
nonempty [] = false
nonempty (x ∷ xs) = true

-- The WHERE clause, as the test that it makes on a row.
unfoldable pub build_visibility_filter : User → List ℕ → Document → Bool
build_visibility_filter user user_group_ids doc =
    if is_admin user
    then true
    else some_eq doc.owner_id user.id
      || doc.others_read
      || nonempty user_group_ids && (in_values doc.group_id user_group_ids && doc.group_read)

unfoldable pub build_folder_visibility_filter : User → List ℕ → Folder → Bool
build_folder_visibility_filter user user_group_ids folder =
    if is_admin user
    then true
    else some_eq folder.owner_id user.id
      || folder.others_read
      || nonempty user_group_ids && (in_values folder.group_id user_group_ids && folder.group_read)

unfoldable pub format_permission_string :
    (group_read group_write others_read others_write : Bool) → Text
format_permission_string group_read group_write others_read others_write =
    codes "rw"
    ++ ((if group_read then codes "r" else codes "-")
        ++ (if group_write then codes "w" else codes "-"))
    ++ ((if others_read then codes "r" else codes "-")
        ++ (if others_write then codes "w" else codes "-"))
