-- ===== src/Folders/Delete.antt =====
-- `delete_folder` of backend/app/routers/folders.py.
use local_ai_search.Prelude.{
  ℕ, zero, suc, ◌+◌, map, not, Option, none, some, List, [], ◌∷◌, ◌++◌, if◌then◌else◌, length,
  select, update_where, contains,
}
use local_ai_search.Models.{User, Folder, Document, Db}
use local_ai_search.Session.{Reply, http_error, reply}
use local_ai_search.Permissions.{in_values}
use local_ai_search.Folders.{folder_of, owns_folder, is_live_in, children_of}

-- The ids of one child and of those behind it.
abbrev pub append_found : Option (List ℕ) → Option (List ℕ) → Option (List ℕ)
append_found none rest = none
append_found (some ids) none = none
append_found (some ids) (some rest) = some (ids ++ rest)

-- `_collect_ids`, with fuel for the depth; `none` means that it ran out.
unfoldable pub collect_each : (ℕ → Option (List ℕ)) → List ℕ → Option (List ℕ)
collect_each collect [] = some []
collect_each collect (id ∷ ids) = append_found (collect id) (collect_each collect ids)

abbrev pub cons_id : ℕ → Option (List ℕ) → Option (List ℕ)
cons_id id none = none
cons_id id (some ids) = some (id ∷ ids)

unfoldable pub collect_ids : (fuel : ℕ) → List Folder → ℕ → Option (List ℕ)
unfolding collect_each
collect_ids zero folders folder_id = none
collect_ids (suc fuel) folders folder_id =
    cons_id folder_id
      (collect_each (collect_ids fuel folders) (map (λ f. f.id) (children_of folder_id folders)))

-- The move of the folder's live documents to the trash.
unfoldable pub trash_docs : (now folder_id : ℕ) → List Document → List Document
trash_docs now folder_id =
    update_where (is_live_in folder_id)
      (λ doc. record doc { deleted_at = some now; folder_id = none })

unfoldable pub trash_all : (now : ℕ) → List ℕ → List Document → List Document
unfolding trash_docs
trash_all now [] documents = documents
trash_all now (folder_id ∷ folder_ids) documents =
    trash_all now folder_ids (trash_docs now folder_id documents)

-- `ON DELETE SET NULL` of `documents.folder_id`, when the rows of the folders are gone.
abbrev pub forget_folders : List ℕ → List Document → List Document
forget_folders folder_ids =
    update_where (λ doc. in_values doc.folder_id folder_ids)
      (λ doc. record doc { folder_id = none })

abbrev pub drop_folders : List ℕ → List Folder → List Folder
drop_folders folder_ids = select (λ f. not (contains folder_ids f.id))

abbrev pub remove_all : (now : ℕ) → Db → Option (List ℕ) → Option (Reply Db)
remove_all now db none = none
remove_all now db (some folder_ids) = some (
    reply (record db {
      documents = forget_folders folder_ids (trash_all now folder_ids db.documents);
      folders = drop_folders folder_ids db.folders;
    }))

-- The endpoint behind the lookup of its folder.
unfoldable pub delete_found : (now : ℕ) → User → Db → Option Folder → Option (Reply Db)
unfolding collect_ids trash_all
delete_found now user db none = some (http_error 404)
delete_found now user db (some folder) =
    if owns_folder user folder
    then remove_all now db (collect_ids (length db.folders + 1) db.folders folder.id)
    else some (http_error 403)

-- The outer `none` means that fuel ran out. The collected folders are all that the cascade of
-- `folders.parent_id` would remove.
unfoldable pub delete_folder : (now folder_id : ℕ) → User → Db → Option (Reply Db)
delete_folder now folder_id user db = delete_found now user db (folder_of folder_id db.folders)
