-- ===== src/Groups/Tests.antt =====
-- A group that gets a member, loses one and is deleted (backend/app/routers/groups.py).
use local_ai_search.Prelude.{
  ◌≡◌, refl, true, false, not, ◌&&◌, ◌||◌, none, some, [], ◌∷◌, codes, ◌==◌, some_eq, All,
}
use local_ai_search.Models.{User, Group, GroupMember, Folder, Document, Db}
use local_ai_search.Session.{reply, http_error}
use local_ai_search.Permissions.{is_admin}
use local_ai_search.Groups.{update_group, delete_group, add_member, remove_member}
use local_ai_search.Groups.Members.{remove_member-is_in, is_in, add_member-is_in}
use local_ai_search.Groups.Removal.{delete_group-forgets}

abbrev admin : User
admin = record {
  id = 1;
  username = codes "root";
  hashed_password = codes "$2b$";
  is_active = true;
  can_share = true;
  last_login_at = none;
  unix_uid = none;
  roles = record { name = codes "admin"; permissions = codes "read,admin" } ∷ [];
}

abbrev staff : Group
staff = record { id = 7; name = codes "staff"; description = []; unix_gid = none }

abbrev shared : Folder
shared = record {
  id = 3;
  name = codes "shared";
  parent_id = none;
  owner_id = some 1;
  group_id = some 7;
  group_read = true;
  group_write = false;
  others_read = false;
  others_write = false;
}

abbrev db : Db
db = record {
  users = admin ∷ record admin { id = 2; roles = [] } ∷ [];
  groups = staff ∷ [];
  members = record { group_id = 7; user_id = 1 } ∷ [];
  folders = shared ∷ [];
  documents = [];
  favorites = [];
  audit_logs = [];
}

-- Twice is a conflict, and who is no administrator is refused.
refused :
    (add_member 7 1 admin db ≡ http_error 409)
    × (add_member 7 2 (record admin { roles = [] }) db ≡ http_error 403)
    × (delete_group 8 admin db ≡ http_error 404)
unfolding add_member delete_group is_admin
refused = (refl, refl, refl)

renamed_alike :
    update_group 8
      (record { name = some (codes "staff"); description = none })
      admin
      (record db { groups = staff ∷ record staff { id = 8; name = codes "guests" } ∷ [] })
    ≡ http_error 500
unfolding update_group is_admin
renamed_alike = refl

abbrev added : Db
added = record db {
  members = record { group_id = 7; user_id = 1 } ∷ record { group_id = 7; user_id = 2 } ∷ [];
  audit_logs =
      record { user_id = some 1; action = codes "group.member_add"; target_id = some 7 } ∷ [];
}

adds : add_member 7 2 admin db ≡ reply added
unfolding add_member is_admin
adds = refl

add_member-is_in_example :
    (is_admin admin ≡ true)
    × (is_in 2 7 added.members ≡ (is_in 2 7 db.members || ((2 == 2) && (7 == 7))))
add_member-is_in_example = add_member-is_in 7 2 admin db added 2 7 adds

abbrev removed : Db
removed = record db {
  members = [];
  audit_logs =
      record { user_id = some 1; action = codes "group.member_remove"; target_id = some 7 } ∷ [];
}

removes : remove_member 7 1 admin db ≡ reply removed
unfolding remove_member is_admin
removes = refl

remove_member-is_in_example :
    (is_admin admin ≡ true)
    × (is_in 1 7 removed.members ≡ (is_in 1 7 db.members && not ((1 == 1) && (7 == 7))))
remove_member-is_in_example = remove_member-is_in 7 1 admin db removed 1 7 removes

abbrev deleted : Db
deleted = record db {
  groups = [];
  members = [];
  folders = record shared { group_id = none } ∷ [];
  audit_logs = record { user_id = some 1; action = codes "group.delete"; target_id = some 7 } ∷ [];
}

deletes : delete_group 7 admin db ≡ reply deleted
unfolding delete_group is_admin
deletes = refl

delete_group-forgets_example :
    (is_admin admin ≡ true)
    × All (λ (g : Group). (g.id == 7) ≡ false) deleted.groups
    × All (λ (m : GroupMember). (m.group_id == 7) ≡ false) deleted.members
    × All (λ (d : Document). some_eq d.group_id 7 ≡ false) deleted.documents
    × All (λ (f : Folder). some_eq f.group_id 7 ≡ false) deleted.folders
delete_group-forgets_example = delete_group-forgets 7 admin db deleted deletes
