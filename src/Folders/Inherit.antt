-- ===== src/Folders/Inherit.antt =====
-- How far the permissions of a folder go down in `_apply_perms_recursive` (backend/app/routers/folders.py).
use mathlib.Core.Path.{subst}
use local_ai_search.Prelude.{
  ℕ, zero, suc, ◌≡◌, refl, sym, ◌∙◌, true, Option, some, List, [], ◌∷◌, arith, ◌==◌, some_eq, In,
  In-find?, In-select, Option-cases, inl, inr, ==_refl, All, All-at, All-true, All-update_where,
}
use local_ai_search.Models.{Folder, Document}
use local_ai_search.Folders.{folder_of, folder_of-id, parent_of, children_of, is_live_in}
use local_ai_search.Folders.Tree.{Below, IsTree}
use local_ai_search.Folders.Moves.{Kept, set_perms-Kept, for_each-keeps, apply_perms_recursive-Kept}
use local_ai_search.Folders.Update.{
  for_each, continue_with-some, doc_perms, set_perms, folder_perms, apply_perms_to_docs,
  apply_perms_recursive,
}

abbrev Rows : Type 0
Rows = List Folder × List Document

pub record HasPerms (source : Folder) (doc : Document) : Type 0 where
  pub group_id : doc.group_id ≡ source.group_id
  pub group_read : doc.group_read ≡ source.group_read
  pub group_write : doc.group_write ≡ source.group_write
  pub others_read : doc.others_read ≡ source.others_read
  pub others_write : doc.others_write ≡ source.others_write

-- What a copy of the folder's permissions has.
pub record SamePerms (source copy : Folder) : Type 0 where
  pub group_id : copy.group_id ≡ source.group_id
  pub group_read : copy.group_read ≡ source.group_read
  pub group_write : copy.group_write ≡ source.group_write
  pub others_read : copy.others_read ≡ source.others_read
  pub others_write : copy.others_write ≡ source.others_write

-- The live documents of the folder `k` have the permissions of the source.
abbrev pub Shared : Folder → (k : ℕ) → List Document → Type 0
Shared source k docs = All (λ doc. is_live_in k doc ≡ true → HasPerms source doc) docs

doc_perms-HasPerms :
    (source folder : Folder) (doc : Document)
    → SamePerms source folder
    → HasPerms source (doc_perms folder doc)
doc_perms-HasPerms source folder doc same = record {
  group_id = same.group_id;
  group_read = same.group_read;
  group_write = same.group_write;
  others_read = same.others_read;
  others_write = same.others_write;
}

copied :
    (source folder child : Folder)
    → SamePerms source folder
    → SamePerms source (folder_perms folder child)
copied source folder child same = record {
  group_id = same.group_id;
  group_read = same.group_read;
  group_write = same.group_write;
  others_read = same.others_read;
  others_write = same.others_write;
}

apply_perms_to_docs-Shared :
    (source folder : Folder) (k : ℕ) (docs : List Document)
    → SamePerms source folder
    → Shared source k (apply_perms_to_docs k folder docs)
unfolding apply_perms_to_docs
apply_perms_to_docs-Shared source folder k docs same =
    All-update_where (λ _. Unit {0}) (λ doc. is_live_in k doc ≡ true → HasPerms source doc)
      (is_live_in k) (doc_perms folder) docs
      (λ doc t u live. doc_perms-HasPerms source folder doc same)
      (λ doc t u live. absurd (ground arith)) (All-true docs)

apply_perms_to_docs-keeps :
    (source folder : Folder) (k j : ℕ) (docs : List Document)
    → SamePerms source folder
    → Shared source k docs
    → Shared source k (apply_perms_to_docs j folder docs)
unfolding apply_perms_to_docs
apply_perms_to_docs-keeps source folder k j docs same h =
    All-update_where _ (λ doc. is_live_in k doc ≡ true → HasPerms source doc) (is_live_in j)
      (doc_perms folder) docs (λ doc t u live. doc_perms-HasPerms source folder doc same)
      (λ doc t u. u) h

module _ {A S : Type 0} (Inv : S → Type 0) (Q : A → S → Type 0) where
  -- What each call makes true of its element, and no other call undoes, is true of all at the end.
  for_each-All :
      (call : A → S → Option S)
      → ((x : A) (s t : S) → call x s ≡ some t → Inv s → Inv t)
      → ((x : A) (s t : S) → call x s ≡ some t → Inv s → Q x t)
      → ((y x : A) (s t : S) → call x s ≡ some t → Inv s → Q y s → Q y t)
      → (xs : List A) (s t : S) → for_each call xs s ≡ some t
      → Inv s
      → All (λ x. Q x t) xs
  unfolding for_each
  for_each-All call step makes keeps [] s t e i = tt
  for_each-All call step makes keeps (x ∷ xs) s t e i =
      let (s', first, rest) = continue_with-some (call x s) (for_each call xs) e in
      let i' = step x s s' first i in
      (
        (for_each-keeps (λ r. Inv r × Q x r) call
            (λ y r r' e' both. (step y r r' e' both.0, keeps x y r r' e' both.0 both.1)) xs s' t
            rest (i', makes x s s' first i)).1,
        for_each-All call step makes keeps xs s' t rest i',
      )

recursive-keeps :
    (fuel : ℕ) (source : Folder) (k : ℕ) (folder : Folder) (s t : Rows)
    → SamePerms source folder
    → apply_perms_recursive fuel folder s ≡ some t
    → Shared source k s.1
    → Shared source k t.1
unfolding apply_perms_recursive
recursive-keeps zero source k folder s t same e h = absurd (ground arith)
recursive-keeps (suc fuel) source k folder (fs, ds) t same e h =
    for_each-keeps (λ (r : Rows). Shared source k r.1) _
      (λ child r r' e' h'.
        recursive-keeps fuel source k (folder_perms folder child)
          (set_perms folder child.id r.0, r.1) r' (copied source folder child same) e' h')
      (children_of folder.id fs) (fs, apply_perms_to_docs folder.id folder ds) t e
      (apply_perms_to_docs-keeps source folder k folder.id ds same h)

-- The row of a child, where the table has its parent.
child_row :
    (before folders : List Folder) (child above : ℕ)
    → Kept before folders
    → parent_of (folder_of child before) ≡ some above
    → (g : Folder) × In g (children_of above folders) × (g.id ≡ child)
unfolding folder_of
child_row before folders child above kept up =
    let up' : parent_of (folder_of child folders) ≡ some above = kept.parents child ∙ up in
    elim (Option-cases (folder_of child folders)) [
      | inl e ↦ absurd (let t = rw e at up' in cc)
      | inr (g, e) ↦
          let parent : g.parent_id ≡ some above = rw e at up' in
          (
            g,
            In-select (λ f. some_eq f.parent_id above) folders
                (In-find? (λ f. f.id == child) folders e) (rw parent (==_refl above)),
            folder_of-id child folders e,
          )
    ]

recursive-reaches :
    (fuel : ℕ) (before : List Folder) (source folder : Folder) (s t : Rows) (k : ℕ)
    → SamePerms source folder
    → Kept before s.0
    → apply_perms_recursive fuel folder s ≡ some t
    → Below before folder.id k
    → Shared source k t.1
unfolding apply_perms_recursive
recursive-reaches zero before source folder s t k same kept e below = absurd (ground arith)
recursive-reaches (suc fuel) before source folder (fs, ds) t k same kept e (Below.itself j) =
    for_each-keeps (λ (r : Rows). Shared source folder.id r.1) _
      (λ child r r' e' h'.
        recursive-keeps fuel source folder.id (folder_perms folder child)
          (set_perms folder child.id r.0, r.1) r' (copied source folder child same) e' h')
      (children_of folder.id fs) (fs, apply_perms_to_docs folder.id folder ds) t e
      (apply_perms_to_docs-Shared source folder folder.id ds same)
recursive-reaches (suc fuel) before source folder (fs, ds) t k same kept e
      (Below.in_child above child j up below) =
    let (g, child_g, same_id) = child_row before fs child folder.id kept up in
    let reached =
      for_each-All (λ (r : Rows). Kept before r.0)
        (λ c (r : Rows). (j : ℕ) → Below before c.id j → Shared source j r.1) _
        (λ c r r' e' kept'.
          apply_perms_recursive-Kept fuel before (folder_perms folder c)
            (set_perms folder c.id r.0, r.1) r' e' (set_perms-Kept before r.0 folder c.id kept'))
        (λ c r r' e' kept' j below'.
          recursive-reaches fuel before source (folder_perms folder c)
            (set_perms folder c.id r.0, r.1) r' j (copied source folder c same)
            (set_perms-Kept before r.0 folder c.id kept') e' below')
        (λ y c r r' e' kept' h j below'.
          recursive-keeps fuel source j (folder_perms folder c) (set_perms folder c.id r.0, r.1) r'
            (copied source folder c same) e' (h j below'))
        (children_of folder.id fs) (fs, apply_perms_to_docs folder.id folder ds) t e kept in
    All-at (λ c. (j : ℕ) → Below before c.id j → Shared source j t.1) (children_of folder.id fs)
      reached child_g k (subst (λ c. Below before c k) (sym same_id) below)

-- On a tree of folders, when the recursion is over, each document that is not in the trash and lies in
-- the folder or in any folder below it has the folder's group and its four permission bits.
pub apply_perms_recursive-reaches :
    (fuel : ℕ) (folder : Folder) (folders folders' : List Folder) (docs docs' : List Document)
    (k : ℕ)
    → IsTree folders
    → apply_perms_recursive fuel folder (folders, docs) ≡ some (folders', docs')
    → Below folders folder.id k
    → All (λ doc. is_live_in k doc ≡ true → HasPerms folder doc) docs'
apply_perms_recursive-reaches fuel folder folders folders' docs docs' k tree e below =
    recursive-reaches fuel folders folder folder (folders, docs) (folders', docs') k
      (record {
        group_id = refl;
        group_read = refl;
        group_write = refl;
        others_read = refl;
        others_write = refl;
      })
      (record { unique = tree.unique; parents = λ j. refl }) e below
