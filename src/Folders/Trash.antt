-- ===== src/Folders/Trash.antt =====
-- What becomes of the documents when `delete_folder` of backend/app/routers/folders.py removes folders.
use local_ai_search.Prelude.{
  ℕ, ◌≡◌, refl, Bool, true, false, ◌&&◌, Option, none, some, List, [], ◌∷◌, ◌++◌, map, arith,
  if◌then◌else◌, is_none, some_eq, Bool-cases, Option-cases, inl, inr, All,
}
use local_ai_search.Models.{Document}
use local_ai_search.Permissions.{in_values}
use local_ai_search.Folders.{is_live_in}
use local_ai_search.Folders.Delete.{trash_all, forget_folders}

abbrev pub to_trash : ℕ → Document → Document
to_trash now doc = record doc { deleted_at = some now; folder_id = none }

-- A document outside the removed folders stays as it is; one in them that was in the trash loses its
-- folder, and one that was not is put in the trash.
abbrev pub fate : (now : ℕ) → List ℕ → Document → Document
fate now ids doc =
    if in_values doc.folder_id ids
    then (if is_none doc.deleted_at then to_trash now doc else record doc { folder_id = none })
    else doc

trash_one : ℕ → List ℕ → Document → Document
trash_one now [] doc = doc
trash_one now (k ∷ ids) doc = trash_one now ids (if is_live_in k doc then to_trash now doc else doc)

trash_all-nil : (now : ℕ) (ids : List ℕ) → trash_all now ids [] ≡ []
unfolding trash_all
trash_all-nil now [] = refl
trash_all-nil now (k ∷ ids) = trash_all-nil now ids

trash_all-cons :
    (now : ℕ) (ids : List ℕ) (doc : Document) (docs : List Document)
    → trash_all now ids (doc ∷ docs) ≡ trash_one now ids doc ∷ trash_all now ids docs
unfolding trash_all trash_one
trash_all-cons now [] doc docs = refl
trash_all-cons now (k ∷ ids) doc docs = trash_all-cons now ids _ _

trash_one-gone :
    (now : ℕ) (ids : List ℕ) (doc : Document) → doc.folder_id ≡ none → trash_one now ids doc ≡ doc
unfolding trash_one
trash_one-gone now [] doc e = refl
trash_one-gone now (k ∷ ids) doc e =
    let t : is_live_in k doc ≡ false = ground arith in rw t (trash_one-gone now ids doc e)

live_hit :
    (o : Option ℕ) (n : Bool) (k : ℕ) (ids : List ℕ)
    → (some_eq o k && n) ≡ true
    → (in_values o (k ∷ ids) && n) ≡ true
live_hit none n k ids e = cc
live_hit (some f) n k ids e = ground arith

live_miss :
    (o : Option ℕ) (n : Bool) (k : ℕ) (ids : List ℕ)
    → (some_eq o k && n) ≡ false
    → (in_values o (k ∷ ids) && n) ≡ (in_values o ids && n)
live_miss none n k ids e = refl
live_miss (some f) n k ids e = ground arith

trash_one-fate :
    (now : ℕ) (ids : List ℕ) (doc : Document)
    → trash_one now ids doc
      ≡ (if in_values doc.folder_id ids && is_none doc.deleted_at then to_trash now doc else doc)
unfolding trash_one
trash_one-fate now [] doc = elim (Option-cases doc.folder_id) [
  | inl e ↦ let t : in_values doc.folder_id [] ≡ false = ground arith in rw t
  | inr (f, e) ↦ let t : in_values doc.folder_id [] ≡ false = ground arith in rw t
]
trash_one-fate now (k ∷ ids) doc = elim (Bool-cases (is_live_in k doc)) [
  | inl t ↦
      rw (t, live_hit doc.folder_id (is_none doc.deleted_at) k ids t)
        (trash_one-gone now ids (to_trash now doc) refl)
  | inr t ↦
      rw (t, live_miss doc.folder_id (is_none doc.deleted_at) k ids t) (trash_one-fate now ids doc)
]

forgotten-fate :
    (now : ℕ) (ids : List ℕ) (doc : Document) (docs : List Document)
    → forget_folders ids (
          (if in_values doc.folder_id ids && is_none doc.deleted_at then to_trash now doc else doc)
          ∷ [])
        ++ docs
      ≡ fate now ids doc ∷ docs
forgotten-fate now ids doc docs = elim (Bool-cases (in_values doc.folder_id ids)) [
  | inl e ↦ elim (Bool-cases (is_none doc.deleted_at)) [
    | inl n ↦ rw (e, n)
    | inr n ↦ rw (e, n) (rw e)
  ]
  | inr e ↦ rw e (rw e)
]

-- The loop over the folders, and the foreign keys after it, in one pass.
pub forget_folders-trash_all :
    (now : ℕ) (ids : List ℕ) (docs : List Document)
    → forget_folders ids (trash_all now ids docs) ≡ map (fate now ids) docs
forget_folders-trash_all now ids [] = rw (trash_all-nil now ids)
forget_folders-trash_all now ids (doc ∷ docs) =
    rw
      (
        trash_all-cons now ids doc docs,
        trash_one-fate now ids doc,
        forget_folders-trash_all now ids docs,
      )
      (forgotten-fate now ids doc (map (fate now ids) docs))

pub fate-outside :
    (now : ℕ) (ids : List ℕ) (docs : List Document)
    → All (λ doc. in_values doc.folder_id ids ≡ false) (map (fate now ids) docs)
fate-outside now ids [] = tt
fate-outside now ids (doc ∷ docs) = (ground arith, fate-outside now ids docs)
