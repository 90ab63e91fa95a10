-- ===== src/Folders/Endpoint.antt =====
-- `update_folder` of backend/app/routers/folders.py ends, and leaves a tree of folders.
use mathlib.Core.Path.{subst}
use local_ai_search.Prelude.{
  ℕ, ◌+◌, ◌≡◌, refl, ap, sym, ◌∙◌, Bool, true, not, ◌&&◌, Option, none, some, List, [], ◌∷◌, arith,
  Bool-cases, Option-cases, inl, inr, length, is_some,
}
use local_ai_search.Models.{User, Folder, Document, Db}
use local_ai_search.Session.{Reply, reply, http_error}
use local_ai_search.Folders.{folder_of, folder_of-id, check_no_cycle, name_taken, owns_folder}
use local_ai_search.Folders.Cycles.{all_unvisited, check_no_cycle-ends}
use local_ai_search.Folders.Tree.{IsTree}
use local_ai_search.Folders.Moves.{
  Kept, Kept-IsTree, apply_perms_recursive-Kept, apply_perms_recursive-ends,
}
use local_ai_search.Folders.Update.{
  FolderUpdate, moved, with_fields, write_folder, or_old, apply_perms_to_docs, apply_perms,
  save_folder, update_found, has_references, perms_changed, update_folder, apply_perms_recursive,
}
use local_ai_search.Folders.Placement.{Placed, reply-of_some, moved-Placed, write_folder-IsTree}

-- The permissions go down: that ends, and places no folder.
apply_perms-ends :
    (body : FolderUpdate) (folder : Folder) (db : Db)
    → IsTree db.folders
    → is_some (folder_of folder.id db.folders) ≡ true
    → (db' : Db) × (apply_perms body folder db ≡ some (reply db')) × IsTree db'.folders
apply_perms-ends body folder db tree there = elim (Bool-cases (perms_changed body)) [
  | inr unchanged ↦ (db, rw unchanged, tree)
  | inl changed ↦ elim (Bool-cases body.recursive) [
    | inr flat ↦
        let db' : Db = record db {
          documents = apply_perms_to_docs folder.id folder db.documents;
        } in
        (db', rw (changed, flat), tree)
    | inl deep ↦
        let rows : List Folder × List Document = (db.folders, db.documents) in
        let fuel = length db.folders + 1 in
        let kept : Kept db.folders db.folders = record {
          unique = tree.unique;
          parents = λ j. refl;
        } in
        elim (Option-cases (apply_perms_recursive fuel folder rows)) [
          | inl ran_out ↦
              let ends =
                apply_perms_recursive-ends fuel db.folders folder rows [] tree.forest kept there tt
                  (omega (arith, all_unvisited db.folders)) in
              absurd (ground arith)
          | inr (rows', e) ↦
              let db' : Db = record db { folders = rows'.0; documents = rows'.1 } in
              (
                db',
                rw (changed, deep, e),
                Kept-IsTree db.folders rows'.0 tree
                    (apply_perms_recursive-Kept fuel db.folders folder rows rows' e kept),
              )
        ]
  ]
]

-- The written row is found again.
written_row :
    (folder : Folder) (folders : List Folder)
    → is_some (folder_of folder.id folders) ≡ true
    → is_some (folder_of folder.id (write_folder folder folders)) ≡ true
unfolding folder_of
written_row folder [] there = there
written_row folder (f ∷ folders) there = ground (arith, written_row folder folders)

-- A reply leaves a tree of folders.
abbrev LeavesTree : Reply Db → Type 0
LeavesTree (http_error status) = Unit
LeavesTree (reply db) = IsTree db.folders

saved-LeavesTree :
    (body : FolderUpdate) (db : Db) (f target : Folder)
    → folder_of f.id db.folders ≡ some f
    → Placed db.folders f target
    → IsTree db.folders
    → (r : Reply Db) × (save_folder body db (some (reply target)) ≡ some r) × LeavesTree r
saved-LeavesTree body db f target row placed tree =
    let folder : Folder = with_fields body target in
    let test : Bool = has_references folder db && not (name_taken folder db.folders) in
    elim (Bool-cases test) [
      | inr refused ↦ (http_error 500, rw refused, tt)
      | inl accepted ↦
          let db' : Db = record db { folders = write_folder folder db.folders } in
          let there =
            subst (λ k. is_some (folder_of k db.folders) ≡ true) (sym placed.0) (ap is_some row) in
          let (db'', e, tree') =
            apply_perms-ends body folder db'
              (write_folder-IsTree db.folders f folder row placed tree)
              (written_row folder db.folders there) in
          (reply db'', rw accepted e, tree')
    ]

moved-ends :
    (q : Option (Option ℕ)) (folder : Folder) (user : User) (db : Db)
    → is_some (moved q folder user db) ≡ true
moved-ends none folder user db = refl
moved-ends (some none) folder user db = refl
moved-ends (some (some p)) folder user db =
    elim (Option-cases (check_no_cycle db.folders folder.id p)) [
      | inl ran_out ↦ absurd (let ends = check_no_cycle-ends db.folders folder.id p in ground arith)
      | inr (no_cycle, e) ↦ rw e
    ]

moved-LeavesTree :
    (body : FolderUpdate) (user : User) (db : Db) (f renamed : Folder) (o : Option (Reply Folder))
    → folder_of f.id db.folders ≡ some f
    → renamed.id ≡ f.id
    → renamed.parent_id ≡ f.parent_id
    → IsTree db.folders
    → moved body.parent_id renamed user db ≡ o
    → (r : Reply Db) × (save_folder body db o ≡ some r) × LeavesTree r
moved-LeavesTree body user db f renamed none row same_id same_parent tree e =
    absurd (let ends = moved-ends body.parent_id renamed user db in ground arith)
moved-LeavesTree body user db f renamed (some (http_error status)) row same_id same_parent tree e =
    (http_error status, refl, tt)
moved-LeavesTree body user db f renamed (some (reply target)) row same_id same_parent tree e =
    let placed = moved-Placed body.parent_id renamed user db target e in
    saved-LeavesTree body db f target row (rw (same_id, same_parent) at placed) tree

update_found-LeavesTree :
    (body : FolderUpdate) (user : User) (db : Db) (f : Folder)
    → folder_of f.id db.folders ≡ some f
    → IsTree db.folders
    → (r : Reply Db) × (update_found body user db (some f) ≡ some r) × LeavesTree r
unfolding update_found
update_found-LeavesTree body user db f row tree =
    let renamed : Folder = record f { name = or_old body.name f.name } in
    elim (Bool-cases (owns_folder user f)) [
      | inr stranger ↦ (http_error 403, rw stranger, tt)
      | inl owner ↦
          let (r, e, t) = moved-LeavesTree body user db f renamed _ row refl refl tree refl in
          (r, rw owner e, t)
    ]

update_folder-LeavesTree :
    (folder_id : ℕ) (body : FolderUpdate) (user : User) (db : Db)
    → IsTree db.folders
    → (r : Reply Db) × (update_folder folder_id body user db ≡ some r) × LeavesTree r
unfolding update_folder update_found
update_folder-LeavesTree folder_id body user db tree =
    elim (Option-cases (folder_of folder_id db.folders)) [
      | inl missing ↦ (http_error 404, ap (update_found body user db) missing, tt)
      | inr (f, row) ↦
          let row' =
            subst (λ k. folder_of k db.folders ≡ some f)
              (sym (folder_of-id folder_id db.folders row)) row in
          let (r, e, t) = update_found-LeavesTree body user db f row' tree in
          (r, ap (update_found body user db) row ∙ e, t)
    ]

-- On a tree of folders `update_folder` returns, with a reply or an error, whatever the request asks and
-- whoever asks it: neither the walk against cycles nor the permissions that go down run on for ever.
pub update_folder-ends :
    (folder_id : ℕ) (body : FolderUpdate) (user : User) (db : Db)
    → IsTree db.folders
    → is_some (update_folder folder_id body user db) ≡ true
update_folder-ends folder_id body user db tree =
    let (r, e, t) = update_folder-LeavesTree folder_id body user db tree in ap is_some e

-- A call of `update_folder` on a tree of folders that succeeds leaves a tree: no two folders have
-- one id, and no folder is above itself, wherever it was moved.
pub update_folder-IsTree :
    (folder_id : ℕ) (body : FolderUpdate) (user : User) (db db' : Db)
    → IsTree db.folders
    → update_folder folder_id body user db ≡ some (reply db')
    → IsTree db'.folders
update_folder-IsTree folder_id body user db db' tree e =
    let (r, e', t) = update_folder-LeavesTree folder_id body user db tree in
    subst LeavesTree (reply-of_some r (sym e' ∙ e)) t
