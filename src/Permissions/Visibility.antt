-- ===== src/Permissions/Visibility.antt =====
-- The SQL filters of backend/app/services/permissions.py against the checks on one row.
use local_ai_search.Prelude.{ℕ, ◌≡◌, Bool, false, not, ◌&&◌, ◌||◌, Option, some, List, arith}
use local_ai_search.Models.{User, GroupMember, Folder, Document}
use local_ai_search.Permissions.{
  get_user_group_ids, in_group, can_access_document, can_access_folder, build_visibility_filter,
  build_folder_visibility_filter,
}

-- The rows that the filter shows and the check refuses: the user is neither an administrator nor
-- the owner (these pass both), is in the row's group, the group may not read, and all others may.
abbrev pub group_shut_out :
    (user : User) (members : List GroupMember) (group_id : Option ℕ) (group_read others_read : Bool)
    → Bool
group_shut_out user members group_id group_read others_read =
    in_group group_id user (some members) && (not group_read && others_read)

pub document_filter :
    (user : User) (members : List GroupMember) (doc : Document)
    → build_visibility_filter user (get_user_group_ids members user.id) doc ≡ (
        can_access_document doc user false (some members)
        || group_shut_out user members doc.group_id doc.group_read doc.others_read)
unfolding build_visibility_filter can_access_document in_group
document_filter user members doc = ground arith

-- A document, and likewise a folder, passes the SQL filter of a user with the groups that the
-- database lists for that user exactly when the user may read it by the check on the row, or the
-- user belongs to its group, the group may not read and all others may.
pub visibility-eq-access :
    (user : User) (members : List GroupMember) (doc : Document) (folder : Folder)
    → (build_visibility_filter user (get_user_group_ids members user.id) doc ≡ (
        can_access_document doc user false (some members)
        || group_shut_out user members doc.group_id doc.group_read doc.others_read))
      × (build_folder_visibility_filter user (get_user_group_ids members user.id) folder ≡ (
          can_access_folder folder user false (some members)
          || group_shut_out user members folder.group_id folder.group_read folder.others_read))
unfolding build_folder_visibility_filter can_access_folder in_group
visibility-eq-access user members doc folder = (document_filter user members doc, ground arith)
