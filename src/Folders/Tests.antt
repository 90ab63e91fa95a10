-- ===== src/Folders/Tests.antt =====
-- Folders that are moved, handed permissions and deleted (backend/app/routers/folders.py).
use local_ai_search.Prelude.{
  pos, ℕ, ◌≡◌, refl, true, false, none, some, List, [], ◌∷◌, ◌++◌, arith, codes, map, contains,
  ◌==◌, Bool-cases, inl, inr, All,
}
use local_ai_search.Models.{User, Folder, Document, Db}
use local_ai_search.Session.{reply, http_error}
use local_ai_search.Permissions.{is_admin, inherited_folder_perms, can_access_folder, in_values}
use local_ai_search.Folders.{
  folder_of, parent_of, FolderCreate, new_folder, create_folder, is_live_in, check_no_cycle,
}
use local_ai_search.Folders.Cycles.{Rooted}
use local_ai_search.Folders.Tree.{Below, IsTree}
use local_ai_search.Folders.Update.{
  FolderUpdate, update_folder, update_found, apply_perms_recursive,
}
use local_ai_search.Folders.Delete.{delete_folder, delete_found, drop_folders}
use local_ai_search.Folders.Trash.{fate}
use local_ai_search.Folders.Removal.{delete_folder-removes}
use local_ai_search.Folders.Endpoint.{update_folder-IsTree}
use local_ai_search.Folders.Inherit.{HasPerms, apply_perms_recursive-reaches}

abbrev owner : User
owner = record {
  id = 9;
  username = codes "owner";
  hashed_password = codes "$2b$";
  is_active = true;
  can_share = false;
  last_login_at = none;
  unix_uid = none;
  roles = [];
}

-- A folder of a group, with a folder in it.
abbrev top : Folder
top = record (new_folder 1 (codes "top") none (some 9)) { group_id = some 7; group_read = true }

abbrev sub : Folder
sub = new_folder 2 (codes "sub") (some 1) (some 9)

abbrev other : Folder
other = new_folder 3 (codes "other") none (some 9)

abbrev rows : List Folder
rows = top ∷ sub ∷ other ∷ []

abbrev memo : Document
memo = record {
  id = 4;
  title = codes "memo";
  source_path = none;
  file_type = codes "txt";
  content = codes "text";
  owner_id = some 9;
  folder_id = some 2;
  group_id = none;
  group_read = false;
  group_write = false;
  others_read = true;
  others_write = true;
  searchable = true;
  ai_knowledge = true;
  share_prohibited = false;
  download_prohibited = false;
  summary = [];
  memo = [];
  processing_status = codes "done";
  created_by_id = none;
  updated_by_id = none;
  updated_at = 0;
  deleted_at = none;
  current_version = 1;
  is_note = false;
  note_content = none;
  parent_note_id = none;
  note_order = pos 0;
  edit_count = 0;
  last_accessed_at = none;
}

abbrev db : Db
db = record {
  users = owner ∷ [];
  groups = [];
  members = [];
  folders = rows;
  documents = memo ∷ [];
  favorites = [];
  audit_logs = [];
}

top-Rooted : Rooted rows (some 1)
unfolding folder_of
top-Rooted = Rooted.under 1 Rooted.top

parent-Rooted : (j : ℕ) → Rooted rows (parent_of (folder_of j rows))
unfolding folder_of
parent-Rooted j = elim (Bool-cases (1 == j)) [
  | inl e ↦ rw e Rooted.top
  | inr e ↦ rw e (elim (Bool-cases (2 == j)) [
    | inl e' ↦ rw e' top-Rooted
    | inr e' ↦
        rw e'
          (elim (Bool-cases (3 == j)) [ inl e'' ↦ rw e'' Rooted.top | inr e'' ↦ rw e'' Rooted.top ])
  ])
]

rows-IsTree : IsTree rows
rows-IsTree = record {
  unique = (((λ e. omega arith), ((λ e. omega arith), tt)), (((λ e. omega arith), tt), (tt, tt)));
  forest = λ j. Rooted.under j (parent-Rooted j);
}

-- The folder `top` is not moved below itself.
refused : check_no_cycle rows 1 2 ≡ some false
unfolding check_no_cycle folder_of
refused = refl

abbrev request : FolderUpdate
request = record {
  name = none;
  parent_id = some (some 3);
  owner_id = none;
  group_id = none;
  group_read = none;
  group_write = none;
  others_read = some false;
  others_write = some false;
  recursive = true;
}

abbrev moved_top : Folder
moved_top = record top { parent_id = some 3; others_read = false; others_write = false }

abbrev after : Db
after = record db {
  folders =
      moved_top
      ∷ record sub {
        group_id = some 7;
        group_read = true;
        others_read = false;
        others_write = false;
      }
      ∷ other
      ∷ [];
  documents =
      record memo {
        group_id = some 7;
        group_read = true;
        others_read = false;
        others_write = false;
      }
      ∷ [];
}

-- A group that is not there is a server error.
dangling : update_folder 1 request owner db ≡ some (http_error 500)
unfolding update_folder update_found folder_of is_admin check_no_cycle can_access_folder
dangling = refl

abbrev with_group : Db
with_group = record db {
  groups = record { id = 7; name = codes "staff"; description = []; unix_gid = none } ∷ [];
}

updated :
    update_folder 1 request owner with_group
    ≡ some (reply (record after { groups = with_group.groups }))
unfolding update_folder update_found folder_of is_admin check_no_cycle can_access_folder
    apply_perms_recursive
updated = refl

update_folder-IsTree_example : IsTree after.folders
update_folder-IsTree_example =
    update_folder-IsTree 1 request owner with_group (record after { groups = with_group.groups })
      rows-IsTree updated

handed_down :
    apply_perms_recursive 4 top (rows, memo ∷ [])
    ≡ some (
      top ∷ record sub { group_id = some 7; group_read = true } ∷ other ∷ [],
      record memo { group_id = some 7; group_read = true; others_write = false } ∷ [],
    )
unfolding apply_perms_recursive
handed_down = refl

sub-Below : Below rows 1 2
unfolding folder_of
sub-Below = Below.in_child 1 2 2 refl (Below.itself 2)

apply_perms_recursive-reaches_example :
    All
      (λ doc. is_live_in 2 doc ≡ true → HasPerms top doc)
      (record memo { group_id = some 7; group_read = true; others_write = false } ∷ [])
apply_perms_recursive-reaches_example =
    apply_perms_recursive-reaches 4 top rows _ (memo ∷ []) _ 2 rows-IsTree handed_down sub-Below

found_top : folder_of 1 rows ≡ some top
unfolding folder_of
found_top = refl

delete_folder-removes_example :
    (ids : List ℕ) × (db' : Db) × (delete_folder 50 1 owner db ≡ some (reply db'))
    × (contains ids 1 ≡ true)
    × All (Below rows 1) ids
    × (db'.folders ≡ drop_folders ids rows)
    × (db'.documents ≡ map (fate 50 ids) (memo ∷ []))
    × All (λ f. in_values f.parent_id ids ≡ false) db'.folders
    × All (λ doc. in_values doc.folder_id ids ≡ false) db'.documents
delete_folder-removes_example =
    delete_folder-removes 50 1 owner db top rows-IsTree found_top (unfold is_admin in refl)

deleted :
    delete_folder 50 1 owner db
    ≡ some (
        reply (record db {
          folders = other ∷ [];
          documents = record memo { folder_id = none; deleted_at = some 50 } ∷ [];
        }))
unfolding delete_folder delete_found folder_of is_admin
deleted = refl

abbrev asked : FolderCreate
asked = record { name = codes "new"; parent_id = some 1 }

abbrev made : Folder
made = record (new_folder 5 (codes "new") (some 1) (some 9)) {
  group_id = some 7;
  group_read = true;
}

created : create_folder 5 asked owner db ≡ reply (made, record db { folders = rows ++ made ∷ [] })
unfolding create_folder inherited_folder_perms can_access_folder folder_of is_admin
created = refl
