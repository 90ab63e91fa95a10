-- ===== src/Folders/Placement.antt =====
-- Where `update_folder` of backend/app/routers/folders.py puts a folder.
use mathlib.Core.Path.{subst}
use mathlib.Core.Option.{some-injective}
use local_ai_search.Prelude.{
  ℕ, ◌≡◌, ◌⊎◌, refl, ap, sym, ◌∙◌, Bool, Option, none, some, List, [], ◌∷◌, arith, ◌==◌, Bool-cases,
  inl, inr, ==_iff, UniqueBy-update_where,
}
use local_ai_search.Models.{User, Folder, Db}
use local_ai_search.Session.{required, Reply, reply, http_error, require, ◌>>◌}
use local_ai_search.Folders.{folder_of, parent_of, check_no_cycle}
use local_ai_search.Folders.Cycles.{
  Rooted, Avoids, move_to, folder_of-moved, Rooted-moved, check_no_cycle-Avoids,
}
use local_ai_search.Folders.Tree.{IsTree}
use local_ai_search.Folders.Moves.{SameParents, Rooted-SameParents}
use local_ai_search.Folders.Update.{continue_with-some, moved, write_folder, may_write_target}

abbrev value_or : {A : Type 0} → A → Option (Reply A) → A
value_or a none = a
value_or a (some (http_error status)) = a
value_or a (some (reply b)) = b

pub reply-of_some :
    {A : Type 0} (r : Reply A) {s : Reply A} → ◌≡◌ {A = Option (Reply A)} (some r) (some s) → r ≡ s
reply-of_some r {s} e = some-injective r s e

-- Where `moved` puts the folder: where it was, or where the way up does not pass it.
abbrev pub Placed : List Folder → Folder → Folder → Type 0
Placed folders folder target =
    (target.id ≡ folder.id)
    × ((target.parent_id ≡ folder.parent_id) ⊎ Avoids folders folder.id target.parent_id)

pub moved-Placed :
    (q : Option (Option ℕ)) (folder : Folder) (user : User) (db : Db) (target : Folder)
    → moved q folder user db ≡ some (reply target)
    → Placed db.folders folder target
moved-Placed none folder user db target e =
    subst (Placed db.folders folder) (ap (value_or folder) e) (refl, inl refl)
moved-Placed (some none) folder user db target e =
    subst (Placed db.folders folder) (ap (value_or folder) e) (refl, inr Avoids.top)
moved-Placed (some (some p)) folder user db target e =
    let (no_cycle, checked, e') = continue_with-some (check_no_cycle db.folders folder.id p) _ e in
    let move : Reply Folder = reply (record folder { parent_id = some p }) in
    let writable : Bool = may_write_target (folder_of p db.folders) user db in
    let (allowed, rest) =
      required no_cycle 400 (require writable 403 >> move) (reply-of_some _ e') in
    let (may_write, same) = required writable 403 move rest in
    subst (Placed db.folders folder) (ap (λ r. value_or folder (some r)) same)
      (refl, inr (check_no_cycle-Avoids db.folders folder.id p (rw allowed at checked)))

write_folder-SameParents :
    (folder : Folder) (folders : List Folder)
    → SameParents (move_to folder.id folder.parent_id folders) (write_folder folder folders)
unfolding folder_of
write_folder-SameParents folder [] j = refl
write_folder-SameParents folder (f ∷ folders) j =
    ground (arith, write_folder-SameParents folder folders j)

new_parent :
    (folder_id : ℕ) (p : Option ℕ) (folders : List Folder) (f : Folder)
    → folder_of folder_id folders ≡ some f
    → parent_of (folder_of folder_id (move_to folder_id p folders)) ≡ p
unfolding folder_of
new_parent folder_id p [] f e = absurd (ground arith)
new_parent folder_id p (g ∷ folders) f e = elim (Bool-cases (g.id == folder_id)) [
  | inl t ↦ rw t (rw t)
  | inr t ↦ rw t (rw t (new_parent folder_id p folders f (rw t at e)))
]

-- A move to the parent that the folder has changes no parent.
stay-SameParents :
    (folder_id : ℕ) (folders : List Folder) (f : Folder)
    → folder_of folder_id folders ≡ some f
    → SameParents folders (move_to folder_id f.parent_id folders)
stay-SameParents folder_id folders f e j = elim (Bool-cases (j == folder_id)) [
  | inl t ↦
      rw ((==_iff j folder_id).0 t)
        (new_parent folder_id f.parent_id folders f e ∙ sym (ap parent_of e))
  | inr t ↦ folder_of-moved folders folder_id f.parent_id j (ground arith)
]

moved-Rooted :
    (folders : List Folder) (f : Folder) (p : Option ℕ) {j : Option ℕ}
    → folder_of f.id folders ≡ some f
    → (p ≡ f.parent_id) ⊎ Avoids folders f.id p
    → Rooted folders j
    → Rooted (move_to f.id p folders) j
moved-Rooted folders f p {j} row (inl same) r =
    subst (λ q. Rooted (move_to f.id q folders) j) (sym same)
      (Rooted-SameParents folders (move_to f.id f.parent_id folders)
        (stay-SameParents f.id folders f row) r)
moved-Rooted folders f p row (inr avoids) r = Rooted-moved folders f.id p avoids r

-- Wherever the folder is put, the ways up still end.
pub write_folder-IsTree :
    (folders : List Folder) (f target : Folder)
    → folder_of f.id folders ≡ some f
    → Placed folders f target
    → IsTree folders
    → IsTree (write_folder target folders)
write_folder-IsTree folders f target row placed tree = record {
  unique = UniqueBy-update_where (λ (g : Folder). g.id) _ _ (λ g. refl) folders tree.unique;
  forest = λ j.
      Rooted-SameParents (move_to target.id target.parent_id folders) (write_folder target folders)
        (write_folder-SameParents target folders)
        (subst (λ k. Rooted (move_to k target.parent_id folders) (some j)) (sym placed.0)
          (moved-Rooted folders f target.parent_id row placed.1 (tree.forest j)));
}
