-- ===== src/Groups.antt =====
-- backend/app/routers/groups.py: the endpoints that write groups and their members. The listings and
-- the responses are left out.
pub mod Members
pub mod Removal
mod Tests
use local_ai_search.Prelude.{
  ℕ, Bool, true, false, not, ◌&&◌, Option, none, some, List, [], ◌∷◌, ◌++◌, Text, codes, text_eq,
  any, ◌==◌, some_eq, is_some, if◌then◌else◌, select, find?, update_where,
}
use local_ai_search.Models.{User, Group, GroupMember, Folder, Document, Db}
use local_ai_search.Session.{Reply, http_error, reply, ◌>>=◌, ◌>>◌, require, found}
use local_ai_search.Permissions.{is_admin}

pub record GroupCreate : Type 0 where
  pub name : Text
  pub description : Text

pub record GroupUpdate : Type 0 where
  pub name : Option Text
  pub description : Option Text

-- `db.get(Group, group_id)`
abbrev pub group_of : ℕ → List Group → Option Group
group_of group_id = find? (λ g. g.id == group_id)

-- The entry of `audit_log`.
abbrev pub logged : User → (action : Text) → (target_id : ℕ) → Db → Db
logged user action target_id db = record db {
  audit_logs =
      db.audit_logs
      ++ record { user_id = some user.id; action = action; target_id = some target_id } ∷ [];
}

-- Another group with the name, which the unique column forbids.
abbrev pub group_name_taken : (group_id : ℕ) → Text → List Group → Bool
group_name_taken group_id name = any (λ g. text_eq g.name name && not (g.id == group_id))

-- `id` is the fresh UUID of the row.
unfoldable pub create_group : (id : ℕ) → GroupCreate → User → Db → Reply (Group × Db)
create_group id body user db =
    require (is_admin user) 403
    >> require (not (is_some (find? (λ g. text_eq g.name body.name) db.groups))) 409
    >> (let group : Group = record {
      id = id;
      name = body.name;
      description = body.description;
      unix_gid = none;
    } in
        reply (
          group,
          logged user (codes "group.create") id (record db { groups = db.groups ++ group ∷ [] }),
        ))

abbrev pub with_group_fields : GroupUpdate → Group → Group
with_group_fields body group = record group {
  name = elim body.name [ none ↦ group.name | some name ↦ name ];
  description = elim body.description [ none ↦ group.description | some text ↦ text ];
}

-- A name that another group has violates the unique column when the row is flushed.
unfoldable pub update_group : (group_id : ℕ) → GroupUpdate → User → Db → Reply (Group × Db)
update_group group_id body user db =
    require (is_admin user) 403
    >> (found (group_of group_id db.groups) 404 >>= λ old.
        let group : Group = with_group_fields body old in
        require (not (group_name_taken group_id group.name db.groups)) 500
        >> reply (
          group,
          logged user (codes "group.update") group_id (record db {
            groups = update_where (λ g. g.id == group_id) (λ g. with_group_fields body g) db.groups;
          }),
        ))

-- `values(group_id=None)` on the documents and folders of the group.
abbrev pub clear_documents : ℕ → List Document → List Document
clear_documents group_id =
    update_where (λ d. some_eq d.group_id group_id) (λ d. record d { group_id = none })

abbrev pub clear_folders : ℕ → List Folder → List Folder
clear_folders group_id =
    update_where (λ f. some_eq f.group_id group_id) (λ f. record f { group_id = none })

-- `db.delete(group)`; the members of the group go with it by ON DELETE CASCADE.
unfoldable pub delete_group : (group_id : ℕ) → User → Db → Reply Db
delete_group group_id user db =
    require (is_admin user) 403
    >> (found (group_of group_id db.groups) 404 >>= λ group. reply (
        logged user (codes "group.delete") group_id (record db {
          documents = clear_documents group_id db.documents;
          folders = clear_folders group_id db.folders;
          groups = select (λ g. not (g.id == group_id)) db.groups;
          members = select (λ m. not (m.group_id == group_id)) db.members;
        })))

abbrev pub is_membership : (group_id user_id : ℕ) → GroupMember → Bool
is_membership group_id user_id m = (m.group_id == group_id) && (m.user_id == user_id)

unfoldable pub add_member : (group_id user_id : ℕ) → User → Db → Reply Db
add_member group_id user_id user db =
    require (is_admin user) 403
    >> (found (group_of group_id db.groups) 404 >>= λ group.
        found (find? (λ u. u.id == user_id) db.users) 404 >>= λ member.
        require (not (is_some (find? (is_membership group_id user_id) db.members))) 409
        >> reply (
            logged user (codes "group.member_add") group_id (record db {
              members = db.members ++ record { group_id = group_id; user_id = user_id } ∷ [];
            })))

-- The table has at most one row of a group and a user, by its unique constraint.
unfoldable pub remove_member : (group_id user_id : ℕ) → User → Db → Reply Db
remove_member group_id user_id user db =
    require (is_admin user) 403
    >> (found (find? (is_membership group_id user_id) db.members) 404 >>= λ member. reply (
        logged user (codes "group.member_remove") group_id (record db {
          members = select (λ m. not (is_membership group_id user_id m)) db.members;
        })))
