-- ===== src/Folders.antt =====
-- backend/app/routers/folders.py: the endpoints that write folders. The responses, and the notes to
-- the file server about its cache, are left out: they read the rows and write none.
pub mod Creation
pub mod Cycles
pub mod Tree
pub mod Update
pub mod Delete
pub mod Trash
pub mod Collection
pub mod Removal
pub mod Moves
pub mod Placement
pub mod Endpoint
pub mod Inherit
mod Tests
use local_ai_search.Prelude.{
  ℕ, zero, suc, ◌+◌, map, Bool, true, false, not, ◌&&◌, ◌||◌, Option, none, some, List, [], ◌∷◌,
  ◌++◌, Text, text_eq, any, ◌==◌, some_eq, is_none, is_some, if◌then◌else◌, length, select, find?,
  update_where, contains, ==_iff, find?-test, ◌≡◌,
}
use local_ai_search.Models.{User, Group, Folder, Document, Db}
use local_ai_search.Session.{Reply, http_error, reply, ◌>>=◌, ◌>>◌, require, found}
use local_ai_search.Permissions.{FolderPerms, inherited_folder_perms, is_admin, can_access_folder}

-- The unique constraint on the parent and the name, in which a NULL parent is equal to none.
abbrev pub name_taken : Folder → List Folder → Bool
name_taken folder folders = elim folder.parent_id [
  | none ↦ false
  | some parent_id ↦
      any
        (λ f.
          some_eq f.parent_id parent_id && (text_eq f.name folder.name && not (f.id == folder.id)))
        folders
]

-- `db.get(Folder, folder_id)`
unfoldable pub folder_of : ℕ → List Folder → Option Folder
folder_of folder_id = find? (λ f. f.id == folder_id)

pub folder_of-id :
    (folder_id : ℕ) (folders : List Folder) {f : Folder}
    → folder_of folder_id folders ≡ some f
    → f.id ≡ folder_id
unfolding folder_of
folder_of-id folder_id folders {f} e =
    (==_iff f.id folder_id).0 (find?-test (λ g. g.id == folder_id) folders e)

-- What the loop does with the row of `current`, if there is one.
abbrev pub parent_of : Option Folder → Option ℕ
parent_of none = none
parent_of (some f) = f.parent_id

-- The `while` loop, with fuel; `none` means that the fuel ran out. A missing row ends the walk as
-- the root does.
unfoldable pub walk_up :
    (fuel : ℕ) → List Folder → (folder_id : ℕ) (current : Option ℕ) (visited : List ℕ) → Option Bool
walk_up zero folders folder_id current visited = none
walk_up (suc fuel) folders folder_id none visited = some true
walk_up (suc fuel) folders folder_id (some current) visited =
    let rest =
      walk_up fuel folders folder_id (parent_of (folder_of current folders)) (current ∷ visited) in
    if current == folder_id
    then some false
    else if contains visited current
    then some false
    else rest

-- Every round but the last two finds a row that was not visited before.
unfoldable pub check_no_cycle : List Folder → (folder_id new_parent_id : ℕ) → Option Bool
unfolding walk_up
check_no_cycle folders folder_id new_parent_id =
    walk_up (length folders + 2) folders folder_id (some new_parent_id) []

pub record FolderCreate : Type 0 where
  pub name : Text
  pub parent_id : Option ℕ

-- The parent of the request, which the user may write in.
abbrev pub parent_for : Option ℕ → User → Db → Reply (Option Folder)
parent_for none user db = reply none
parent_for (some parent_id) user db = found (folder_of parent_id db.folders) 404 >>= λ parent.
    require (can_access_folder parent user true (some db.members)) 403 >> reply (some parent)

-- `Folder(..., **inherited_folder_perms(parent))`; the defaults are those of the columns.
abbrev pub with_perms : Option FolderPerms → Folder → Folder
with_perms none folder = folder
with_perms (some perms) folder = record folder {
  group_id = perms.group_id;
  group_read = perms.group_read;
  group_write = perms.group_write;
  others_read = perms.others_read;
  others_write = perms.others_write;
}

abbrev pub new_folder : (id : ℕ) → Text → (parent_id owner_id : Option ℕ) → Folder
new_folder id name parent_id owner_id = record {
  id = id;
  name = name;
  parent_id = parent_id;
  owner_id = owner_id;
  group_id = none;
  group_read = false;
  group_write = false;
  others_read = true;
  others_write = false;
}

-- `id` is the fresh UUID of the row. A constraint that the flush violates is a server error.
unfoldable pub create_folder : (id : ℕ) → FolderCreate → User → Db → Reply (Folder × Db)
create_folder id body user db = parent_for body.parent_id user db >>= λ parent.
    let folder =
      with_perms (inherited_folder_perms parent)
        (new_folder id body.name body.parent_id (some user.id)) in
    require (not (name_taken folder db.folders)) 500
    >> reply (folder, record db { folders = db.folders ++ folder ∷ [] })

-- "Only owner or admin"
abbrev pub owns_folder : User → Folder → Bool
owns_folder user folder = is_admin user || some_eq folder.owner_id user.id

-- A document of the folder that is not in the trash.
abbrev pub is_live_in : ℕ → Document → Bool
is_live_in folder_id doc = some_eq doc.folder_id folder_id && is_none doc.deleted_at

abbrev pub children_of : ℕ → List Folder → List Folder
children_of folder_id = select (λ f. some_eq f.parent_id folder_id)
