-- ===== src/Folders/Moves.antt =====
-- `update_folder` of backend/app/routers/folders.py ends, and keeps the folders a tree.
use mathlib.Core.Path.{subst}
use mathlib.Core.Option.{some-injective}
use local_ai_search.Prelude.{
  ℕ, zero, suc, ◌<◌, ◌≡◌, refl, sym, ◌∙◌, true, Option, some, List, [], ◌∷◌, arith, Option-cases,
  inl, inr, is_some, All, All-map, UniqueBy, UniqueBy-update_where,
}
use local_ai_search.Models.{Folder, Document}
use local_ai_search.Folders.{folder_of, parent_of, children_of}
use local_ai_search.Folders.Cycles.{Rooted, IsForest, unvisited}
use local_ai_search.Folders.Tree.{IsTree, AllAbove, step_down, children_rows, row-parent}
use local_ai_search.Folders.Update.{
  for_each, continue_with-some, set_perms, folder_perms, apply_perms_recursive, apply_perms_to_docs,
}

abbrev Rows : Type 0
Rows = List Folder × List Document

-- The folders have the parents that they had.
abbrev pub SameParents : List Folder → List Folder → Type 0
SameParents before after = (j : ℕ) → parent_of (folder_of j after) ≡ parent_of (folder_of j before)

pub Rooted-SameParents :
    (before after : List Folder) {p : Option ℕ}
    → SameParents before after
    → Rooted before p
    → Rooted after p
Rooted-SameParents before after same Rooted.top = Rooted.top
Rooted-SameParents before after same (Rooted.under j r) =
    Rooted.under j (rw (same j) (Rooted-SameParents before after same r))

-- The ids stay different too.
pub record Kept (before after : List Folder) : Type 0 where
  pub unique : UniqueBy (λ (f : Folder). f.id) after
  pub parents : SameParents before after

pub Kept-IsTree : (before after : List Folder) → IsTree before → Kept before after → IsTree after
Kept-IsTree before after tree kept = record {
  unique = kept.unique;
  forest = λ j. Rooted-SameParents before after kept.parents (tree.forest j);
}

set_perms-SameParents :
    (folder : Folder) (child_id : ℕ) (folders : List Folder)
    → SameParents folders (set_perms folder child_id folders)
unfolding folder_of
set_perms-SameParents folder child_id [] j = refl
set_perms-SameParents folder child_id (f ∷ folders) j =
    ground (arith, set_perms-SameParents folder child_id folders j)

pub set_perms-Kept :
    (before folders : List Folder) (folder : Folder) (child_id : ℕ)
    → Kept before folders
    → Kept before (set_perms folder child_id folders)
set_perms-Kept before folders folder child_id kept = record {
  unique = UniqueBy-update_where (λ (f : Folder). f.id) _ _ (λ f. refl) folders kept.unique;
  parents = λ j. set_perms-SameParents folder child_id folders j ∙ kept.parents j;
}

module _ {A S : Type 0} (Inv : S → Type 0) where
  pub for_each-keeps :
      (call : A → S → Option S)
      → ((x : A) (s t : S) → call x s ≡ some t → Inv s → Inv t)
      → (xs : List A) (s t : S) → for_each call xs s ≡ some t
      → Inv s
      → Inv t
  unfolding for_each
  for_each-keeps call step [] s t e i = subst Inv (some-injective s t e) i
  for_each-keeps call step (x ∷ xs) s t e i =
      let (s', first, rest) = continue_with-some (call x s) (for_each call xs) e in
      for_each-keeps call step xs s' t rest (step x s s' first i)

  for_each-ends :
      (call : A → S → Option S)
      → ((x : A) (s t : S) → call x s ≡ some t → Inv s → Inv t)
      → (xs : List A) → All (λ x. (s : S) → Inv s → is_some (call x s) ≡ true) xs
      → (s : S) → Inv s
      → is_some (for_each call xs s) ≡ true
  unfolding for_each
  for_each-ends call step [] ends s i = refl
  for_each-ends call step (x ∷ xs) ends s i = elim (Option-cases (call x s)) [
    | inl e ↦ absurd (let t = ends.0 s i in ground arith)
    | inr (s', e) ↦ rw e (for_each-ends call step xs ends.1 s' (step x s s' e i))
  ]

-- The recursion writes no parent and no id.
pub apply_perms_recursive-Kept :
    (fuel : ℕ) (before : List Folder) (folder : Folder) (s t : Rows)
    → apply_perms_recursive fuel folder s ≡ some t
    → Kept before s.0
    → Kept before t.0
unfolding apply_perms_recursive
apply_perms_recursive-Kept zero before folder s t e kept = absurd (ground arith)
apply_perms_recursive-Kept (suc fuel) before folder (fs, ds) t e kept =
    for_each-keeps (λ (r : Rows). Kept before r.0) _
      (λ child s s' e' kept'.
        apply_perms_recursive-Kept fuel before (folder_perms folder child)
          (set_perms folder child.id s.0, s.1) s' e'
          (set_perms-Kept before s.0 folder child.id kept'))
      (children_of folder.id fs) (fs, apply_perms_to_docs folder.id folder ds) t e kept

pub apply_perms_recursive-ends :
    (fuel : ℕ) (before : List Folder) (folder : Folder) (s : Rows) (chain : List ℕ)
    → IsForest before
    → Kept before s.0
    → is_some (folder_of folder.id before) ≡ true
    → AllAbove before folder.id chain
    → unvisited chain before < fuel
    → is_some (apply_perms_recursive fuel folder s) ≡ true
unfolding apply_perms_recursive
apply_perms_recursive-ends zero before folder s chain forest kept there above p =
    absurd (omega arith)
apply_perms_recursive-ends (suc fuel) before folder (fs, ds) chain forest kept there above p =
    for_each-ends (λ (r : Rows). Kept before r.0) _
      (λ child s s' e' kept'.
        apply_perms_recursive-Kept fuel before (folder_perms folder child)
          (set_perms folder child.id s.0, s.1) s' e'
          (set_perms-Kept before s.0 folder child.id kept'))
      (children_of folder.id fs)
      (All-map _ _ (children_of folder.id fs)
        (λ child row s kept'.
          let up =
            sym (kept.parents child.id) ∙ row-parent fs child folder.id kept.unique row.0 row.1 in
          let (above', there', fewer) =
            step_down before child.id folder.id chain forest there above up in
          apply_perms_recursive-ends fuel before (folder_perms folder child)
            (set_perms folder child.id s.0, s.1) (folder.id ∷ chain) forest
            (set_perms-Kept before s.0 folder child.id kept') there' above' (omega arith))
        (children_rows folder.id fs))
      (fs, apply_perms_to_docs folder.id folder ds) kept
