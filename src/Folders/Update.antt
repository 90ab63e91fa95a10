-- ===== src/Folders/Update.antt =====
-- `update_folder` of backend/app/routers/folders.py, with the permissions that it hands down.
use local_ai_search.Prelude.{
  ℕ, zero, ◌≡◌, refl, suc, ◌+◌, map, Bool, true, not, ◌&&◌, ◌||◌, Option, none, some, List, [], ◌∷◌,
  Text, ◌==◌, is_some, if◌then◌else◌, length, update_where, contains,
}
use local_ai_search.Models.{User, Folder, Document, Db}
use local_ai_search.Session.{Reply, http_error, reply, ◌>>◌, require}
use local_ai_search.Permissions.{can_access_folder}
use local_ai_search.Folders.{
  folder_of, check_no_cycle, owns_folder, is_live_in, children_of, name_taken,
}

-- The permission columns of a folder, written to a document and to a child folder.
abbrev pub doc_perms : Folder → Document → Document
doc_perms folder doc = record doc {
  group_id = folder.group_id;
  group_read = folder.group_read;
  group_write = folder.group_write;
  others_read = folder.others_read;
  others_write = folder.others_write;
}

abbrev pub folder_perms : Folder → Folder → Folder
folder_perms folder child = record child {
  group_id = folder.group_id;
  group_read = folder.group_read;
  group_write = folder.group_write;
  others_read = folder.others_read;
  others_write = folder.others_write;
}

unfoldable pub apply_perms_to_docs : (folder_id : ℕ) → Folder → List Document → List Document
apply_perms_to_docs folder_id folder = update_where (is_live_in folder_id) (doc_perms folder)

-- The rest of a sequence of calls that may run out of fuel.
abbrev pub continue_with : {S T : Type 0} → Option S → (S → Option T) → Option T
continue_with none rest = none
continue_with (some s) rest = rest s

pub continue_with-some :
    {S T : Type 0} (o : Option S) (rest : S → Option T) {t : T}
    → continue_with o rest ≡ some t
    → (s : S) × (o ≡ some s) × (rest s ≡ some t)
continue_with-some none rest e = cc
continue_with-some (some s) rest e = (s, refl, e)

-- A call for each element in turn.
unfoldable pub for_each : {A S : Type 0} → (A → S → Option S) → List A → S → Option S
for_each call [] s = some s
for_each call (x ∷ xs) s = continue_with (call x s) (for_each call xs)

abbrev pub set_perms : Folder → (child_id : ℕ) → List Folder → List Folder
set_perms folder child_id = update_where (λ f. f.id == child_id) (folder_perms folder)

-- The rows of the folders and the documents behind the call, with fuel for the depth.
unfoldable pub apply_perms_recursive :
    (fuel : ℕ) → Folder → List Folder × List Document → Option (List Folder × List Document)
unfolding for_each apply_perms_to_docs
apply_perms_recursive zero folder s = none
apply_perms_recursive (suc fuel) folder (folders, documents) =
    for_each
      (λ child (fs, ds).
        apply_perms_recursive fuel (folder_perms folder child) (set_perms folder child.id fs, ds))
      (children_of folder.id folders) (folders, apply_perms_to_docs folder.id folder documents)

-- A field is `none` where the request leaves it out, and `some none` where it is the empty text.
pub record FolderUpdate : Type 0 where
  pub name : Option Text
  pub parent_id : Option (Option ℕ)
  pub owner_id : Option (Option ℕ)
  pub group_id : Option (Option ℕ)
  pub group_read : Option Bool
  pub group_write : Option Bool
  pub others_read : Option Bool
  pub others_write : Option Bool
  pub recursive : Bool

abbrev pub or_old {ℓ} : {A : Type ℓ} → Option A → A → A
or_old none old = old
or_old (some new) old = new

-- `if new_parent_folder and not await can_access_folder(...)`
abbrev pub may_write_target : Option Folder → User → Db → Bool
may_write_target none user db = true
may_write_target (some target) user db = can_access_folder target user true (some db.members)

-- The part of `update_folder` on the parent. The outer `none` means that fuel ran out.
abbrev pub moved : Option (Option ℕ) → Folder → User → Db → Option (Reply Folder)
moved none folder user db = some (reply folder)
moved (some none) folder user db = some (reply (record folder { parent_id = none }))
moved (some (some new_parent_id)) folder user db =
    continue_with (check_no_cycle db.folders folder.id new_parent_id) (λ no_cycle. some (
      require no_cycle 400
      >> (require (may_write_target (folder_of new_parent_id db.folders) user db) 403
          >> reply (record folder { parent_id = some new_parent_id }))))

abbrev pub with_fields : FolderUpdate → Folder → Folder
with_fields body folder = record folder {
  owner_id = or_old body.owner_id folder.owner_id;
  group_id = or_old body.group_id folder.group_id;
  group_read = or_old body.group_read folder.group_read;
  group_write = or_old body.group_write folder.group_write;
  others_read = or_old body.others_read folder.others_read;
  others_write = or_old body.others_write folder.others_write;
}

abbrev pub perms_changed : FolderUpdate → Bool
perms_changed body =
    is_some body.group_id
    || is_some body.group_read
    || is_some body.group_write
    || is_some body.others_read
    || is_some body.others_write

abbrev refers : Option ℕ → List ℕ → Bool
refers none ids = true
refers (some id) ids = contains ids id

-- The foreign keys of the row, which the flush checks.
abbrev pub has_references : Folder → Db → Bool
has_references folder db =
    refers folder.parent_id (map (λ f. f.id) db.folders)
    && refers folder.owner_id (map (λ u. u.id) db.users)
    && refers folder.group_id (map (λ g. g.id) db.groups)

-- UPDATE of every column but the id
abbrev pub write_folder : Folder → List Folder → List Folder
write_folder folder = update_where (λ f. f.id == folder.id) (λ f. record folder { id = f.id })

abbrev pub rows_to_db : Db → Option (List Folder × List Document) → Option (Reply Db)
rows_to_db db none = none
rows_to_db db (some (folders, documents)) =
    some (reply (record db { folders = folders; documents = documents }))

-- The permissions go to the documents, and with `recursive` to everything below.
abbrev pub apply_perms : FolderUpdate → Folder → Db → Option (Reply Db)
apply_perms body folder db =
    if perms_changed body
    then (if body.recursive
        then rows_to_db db
            (apply_perms_recursive (length db.folders + 1) folder (db.folders, db.documents))
        else some
            (reply (record db { documents = apply_perms_to_docs folder.id folder db.documents })))
    else some (reply db)

-- What follows the part on the parent.
abbrev pub save_folder : FolderUpdate → Db → Option (Reply Folder) → Option (Reply Db)
save_folder body db none = none
save_folder body db (some (http_error status)) = some (http_error status)
save_folder body db (some (reply target)) =
    let folder = with_fields body target in
    if has_references folder db && not (name_taken folder db.folders)
    then apply_perms body folder (record db { folders = write_folder folder db.folders })
    else some (http_error 500)

-- The endpoint behind the lookup of its folder.
unfoldable pub update_found : FolderUpdate → User → Db → Option Folder → Option (Reply Db)
update_found body user db none = some (http_error 404)
update_found body user db (some folder) =
    if owns_folder user folder
    then save_folder body db
        (moved body.parent_id (record folder { name = or_old body.name folder.name }) user db)
    else some (http_error 403)

-- The outer `none` means that fuel ran out.
unfoldable pub update_folder : (folder_id : ℕ) → FolderUpdate → User → Db → Option (Reply Db)
update_folder folder_id body user db = update_found body user db (folder_of folder_id db.folders)
