-- ===== src/Permissions/Tests.antt =====
-- The checks and filters of backend/app/services/permissions.py at concrete users and rows.
use local_ai_search.Prelude.{pos, ◌≡◌, refl, true, false, ◌||◌, none, some, List, [], ◌∷◌, codes}
use local_ai_search.Models.{User, GroupMember, Folder, Document}
use local_ai_search.Permissions.{
  is_admin, in_group, get_user_group_ids, can_access_document, can_access_folder,
  build_visibility_filter, build_folder_visibility_filter,
}
use local_ai_search.Permissions.Visibility.{group_shut_out, visibility-eq-access}

abbrev pub alice : User
alice = record {
  id = 1;
  username = codes "alice";
  hashed_password = codes "$2b$";
  is_active = true;
  can_share = false;
  last_login_at = none;
  unix_uid = none;
  roles = record { name = codes "user"; permissions = codes "read,write" } ∷ [];
}

abbrev pub root : User
root = record alice {
  id = 2;
  roles = record { name = codes "admin"; permissions = codes "read, admin" } ∷ [];
}

abbrev members : List GroupMember
members = record { group_id = 7; user_id = 1 } ∷ []

-- Its group may not read, all others may.
abbrev inverted : Folder
inverted = record {
  id = 5;
  name = codes "minutes";
  parent_id = none;
  owner_id = some 9;
  group_id = some 7;
  group_read = false;
  group_write = false;
  others_read = true;
  others_write = false;
}

abbrev pub memo : Document
memo = record {
  id = 3;
  title = codes "memo";
  source_path = none;
  file_type = codes "txt";
  content = codes "text";
  owner_id = some 9;
  folder_id = some 5;
  group_id = some 7;
  group_read = false;
  group_write = false;
  others_read = true;
  others_write = false;
  searchable = true;
  ai_knowledge = true;
  share_prohibited = false;
  download_prohibited = false;
  summary = [];
  memo = [];
  processing_status = codes "done";
  created_by_id = none;
  updated_by_id = none;
  updated_at = 0;
  deleted_at = none;
  current_version = 1;
  is_note = false;
  note_content = none;
  parent_note_id = none;
  note_order = pos 0;
  edit_count = 0;
  last_accessed_at = none;
}

admins : (is_admin alice ≡ false) × (is_admin root ≡ true)
unfolding is_admin
admins = (refl, refl)

-- The filter shows the document, and the check refuses it.
shut_out :
    (build_visibility_filter alice (get_user_group_ids members alice.id) memo ≡ true)
    × (can_access_document memo alice false (some members) ≡ false)
unfolding build_visibility_filter get_user_group_ids can_access_document is_admin in_group
shut_out = (refl, refl)

visibility-eq-access_example :
    (build_visibility_filter alice (get_user_group_ids members alice.id) memo ≡ (
      can_access_document memo alice false (some members)
      || group_shut_out alice members memo.group_id memo.group_read memo.others_read))
    × (build_folder_visibility_filter alice (get_user_group_ids members alice.id) inverted ≡ (
        can_access_folder inverted alice false (some members)
        || group_shut_out alice members inverted.group_id inverted.group_read inverted.others_read))
visibility-eq-access_example = visibility-eq-access alice members memo inverted
