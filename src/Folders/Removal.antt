-- ===== src/Folders/Removal.antt =====
-- What `delete_folder` of backend/app/routers/folders.py removes, and what it leaves.
use mathlib.Core.Path.{subst}
use local_ai_search.Prelude.{
  ℕ, ◌+◌, ◌≡◌, refl, ap, sym, ◌∙◌, Bool, true, false, not, some, List, [], arith, some_eq, map, In,
  Bool-cases, Option-cases, inl, inr, length, contains, is_some, All, All-map, All-at, All-In,
  All-select_and, In-select, ==_refl,
}
use local_ai_search.Models.{Folder, User, Db}
use local_ai_search.Session.{reply}
use local_ai_search.Folders.{folder_of, folder_of-id, children_of, owns_folder}
use local_ai_search.Folders.Cycles.{all_unvisited}
use local_ai_search.Folders.Tree.{Below, IsTree}
use local_ai_search.Permissions.{in_values}
use local_ai_search.Folders.Trash.{fate, fate-outside, forget_folders-trash_all}
use local_ai_search.Folders.Delete.{
  delete_found, collect_ids, trash_all, forget_folders, drop_folders, delete_folder,
}
use local_ai_search.Folders.Collection.{
  Closed, collect_ids-ends, collect_ids-Collected, collect_ids-Below,
}

not-true : (b : Bool) → not b ≡ true → b ≡ false
not-true true e = sym e
not-true false e = refl

parent-outside :
    (folders : List Folder) (ids : List ℕ) (f : Folder)
    → Closed folders ids
    → In f folders
    → contains ids f.id ≡ false
    → in_values f.parent_id ids ≡ false
parent-outside folders ids f closed m out = elim (Option-cases f.parent_id) [
  | inl e ↦ rw e
  | inr (k, e) ↦ elim (Bool-cases (contains ids k)) [
    | inl t ↦
        let child = In-select (λ g. some_eq g.parent_id k) folders m (rw e (==_refl k)) in
        let gone =
          All-at (λ g. contains ids g.id ≡ true) (children_of k folders) (closed k t) child in
        absurd (ground arith)
    | inr t ↦ rw e t
  ]
]

-- The folders that stay have no parent among those that go.
left-outside :
    (folders : List Folder) (ids : List ℕ)
    → Closed folders ids
    → All (λ f. in_values f.parent_id ids ≡ false) (drop_folders ids folders)
left-outside folders ids closed =
    All-map _ _ (drop_folders ids folders)
      (λ f h. parent-outside folders ids f closed h.0 (not-true _ h.1))
      (All-select_and (λ f. In f folders) (λ f. not (contains ids f.id)) folders (All-In folders))

-- On a tree of folders, `delete_folder` by the owner or an administrator returns. What it removes is the
-- folder and folders below it; no folder and no document that is left refers to a removed one, so
-- nothing below the folder stays. Each document that was in a removed folder and not in the trash is
-- there now, and all other documents are as they were, but for the folder of those in the trash.
pub delete_folder-removes :
    (now folder_id : ℕ) (user : User) (db : Db) (folder : Folder)
    → IsTree db.folders
    → folder_of folder_id db.folders ≡ some folder
    → owns_folder user folder ≡ true
    → (ids : List ℕ) × (db' : Db) × (delete_folder now folder_id user db ≡ some (reply db'))
      × (contains ids folder_id ≡ true)
      × All (Below db.folders folder_id) ids
      × (db'.folders ≡ drop_folders ids db.folders)
      × (db'.documents ≡ map (fate now ids) db.documents)
      × All (λ f. in_values f.parent_id ids ≡ false) db'.folders
      × All (λ doc. in_values doc.folder_id ids ≡ false) db'.documents
unfolding delete_folder delete_found
delete_folder-removes now folder_id user db folder tree there owns =
    let fuel = length db.folders + 1 in
    let same : folder.id ≡ folder_id = folder_of-id folder_id db.folders there in
    elim (Option-cases (collect_ids fuel db.folders folder_id)) [
      | inl ran_out ↦
          let ends =
            collect_ids-ends fuel db.folders folder_id [] tree (ap is_some there) tt
              (omega (arith, all_unvisited db.folders)) in
          absurd (ground (arith, ends))
      | inr (ids, e) ↦
          let (has, closed) = collect_ids-Collected fuel db.folders folder_id ids e in
          let docs = forget_folders-trash_all now ids db.documents in
          let db' : Db = record db {
            documents = forget_folders ids (trash_all now ids db.documents);
            folders = drop_folders ids db.folders;
          } in
          (
            ids,
            db',
            ap (delete_found now user db) there ∙ rw (owns, same, e),
            has,
            collect_ids-Below fuel db.folders folder_id ids tree e,
            refl,
            docs,
            left-outside db.folders ids closed,
            subst (All (λ doc. in_values doc.folder_id ids ≡ false)) (sym docs)
                (fate-outside now ids db.documents),
          )
    ]
