-- ===== src/Versioning/History.antt =====
-- backend/app/services/versioning.py: the version rows that the edits of a document leave.
use local_ai_search.Prelude.{
  ℕ, ◌<◌, ◌≤◌, ◌≡◌, ◌≢◌, refl, ap, sym, ◌∙◌, Option, some, List, [], ◌∷◌, ◌++◌, Text, codes, arith,
  ◌==◌, if◌then◌else◌, length, All, All-append, Bool-cases, inl, inr,
}
use mathlib.Core.List.{append-nil, append_assoc}
use local_ai_search.Models.{Document, DocumentVersion}
use local_ai_search.Versioning.{
  Store, max_version, save_version, create_versions_on_edit, save_new_version, version_row,
}

-- No two versions of one document have one number, as the table's unique constraint asks.
abbrev pub IsNumbered : List DocumentVersion → Type 0
IsNumbered [] = Unit
IsNumbered (v ∷ vs) =
    All (λ w. w.document_id ≡ v.document_id → w.version_number ≢ v.version_number) vs
    × IsNumbered vs

IsNumbered-append :
    (vs : List DocumentVersion) (v : DocumentVersion)
    → IsNumbered vs
    → All (λ w. w.document_id ≡ v.document_id → w.version_number ≢ v.version_number) vs
    → IsNumbered (vs ++ v ∷ [])
IsNumbered-append [] v n h = (tt, tt)
IsNumbered-append (w ∷ vs) v n h = (
  All-append _ vs (v ∷ []) n.0 ((λ e k. h.0 (sym e) (sym k)), tt),
  IsNumbered-append vs v n.1 h.1,
)

abbrev pub MaxBounds : ℕ → List DocumentVersion → ℕ → Type 0
MaxBounds doc_id vs n = All (λ w. w.document_id ≡ doc_id → w.version_number ≤ n) vs

MaxBounds-le :
    (doc_id : ℕ) (vs : List DocumentVersion) (n m : ℕ)
    → n ≤ m
    → MaxBounds doc_id vs n
    → MaxBounds doc_id vs m
MaxBounds-le doc_id [] n m p h = tt
MaxBounds-le doc_id (v ∷ vs) n m p h =
    ((λ e. let q = h.0 e in omega arith), MaxBounds-le doc_id vs n m p h.1)

pub max_version-MaxBounds :
    (doc_id : ℕ) (vs : List DocumentVersion) → MaxBounds doc_id vs (max_version doc_id vs)
unfolding max_version
max_version-MaxBounds doc_id [] = tt
max_version-MaxBounds doc_id (v ∷ vs) = (
  (λ e. ground arith),
  MaxBounds-le doc_id vs (max_version doc_id vs) _ (ground arith) (max_version-MaxBounds doc_id vs),
)

max_version-append :
    (doc_id : ℕ) (vs : List DocumentVersion) (v : DocumentVersion)
    → v.document_id ≡ doc_id
    → max_version doc_id vs < v.version_number
    → max_version doc_id (vs ++ v ∷ []) ≡ v.version_number
unfolding max_version
max_version-append doc_id [] v e p = ground arith
max_version-append doc_id (w ∷ vs) v e p =
    let ih = max_version-append doc_id vs v e (ground arith) in ground arith

fresh_number :
    (vs : List DocumentVersion) (v : DocumentVersion) (n : ℕ)
    → n < v.version_number
    → MaxBounds v.document_id vs n
    → All (λ w. w.document_id ≡ v.document_id → w.version_number ≢ v.version_number) vs
fresh_number [] v n p h = tt
fresh_number (w ∷ vs) v n p h = ((λ e k. let q = h.0 e in omega arith), fresh_number vs v n p h.1)

module _ (storage_root : Text) (uuid_text : ℕ → Text) where
  pub save_version-row :
      (doc : Document) (n : ℕ) (user_id : Option ℕ) (change_type : Option Text) (s : Store)
      → (copy : Option Text × Option ℕ) × ((save_version storage_root uuid_text doc n user_id
            change_type s).versions
          ≡ s.versions ++ version_row doc n user_id change_type copy ∷ [])
  unfolding save_version
  save_version-row doc n user_id change_type s = (_, refl)

  -- Saved at a number above the document's others, the version is new and the highest.
  pub save_version-fresh :
      (doc : Document) (n : ℕ) (user_id : Option ℕ) (change_type : Option Text) (s : Store)
      → IsNumbered s.versions
      → max_version doc.id s.versions < n
      → let saved = save_version storage_root uuid_text doc n user_id change_type s in
        IsNumbered saved.versions × (max_version doc.id saved.versions ≡ n)
  save_version-fresh doc n user_id change_type s numbered p =
      let (copy, e) = save_version-row doc n user_id change_type s in
      let row = version_row doc n user_id change_type copy in
      rw e (
        IsNumbered-append s.versions row numbered (
            fresh_number s.versions row (max_version doc.id s.versions) p
              (max_version-MaxBounds doc.id s.versions)),
        max_version-append doc.id s.versions row refl p,
      )

  -- An edit, as `update_document` makes it: `create_versions_on_edit` on the document before,
  -- `save_new_version` on the document after, with the number that the first returns.
  abbrev pub edit :
      (before after : Document) (user_id : Option ℕ) (change_type : Option Text)
      → Store
      → ℕ × (Document × Store)
  edit before after user_id change_type s =
      let (n, s') = create_versions_on_edit storage_root uuid_text before user_id s in
      (n, save_new_version storage_root uuid_text after n user_id change_type s')

  pub create_versions_on_edit_lem :
      (doc : Document) (user_id : Option ℕ) (s : Store)
      → IsNumbered s.versions
      → let (n, s') = create_versions_on_edit storage_root uuid_text doc user_id s in
        IsNumbered s'.versions
        × (max_version doc.id s'.versions < n)
        × (max_version doc.id s.versions < n)
        × (added : List DocumentVersion) × (s'.versions ≡ s.versions ++ added)
        × (length added ≡ (if max_version doc.id s.versions == 0 then 1 else 0))
        × All (λ v. v.document_id ≡ doc.id) added
  unfolding create_versions_on_edit
  create_versions_on_edit_lem doc user_id s numbered =
      elim (Bool-cases (max_version doc.id s.versions == 0)) [
        | inl e ↦
            let zero_max : max_version doc.id s.versions ≡ 0 = ground arith in
            let (fresh, top) =
              save_version-fresh doc 1 user_id (some (codes "upload")) s numbered (omega arith) in
            let (copy, row) = save_version-row doc 1 user_id (some (codes "upload")) s in
            rw e (fresh, omega arith, omega arith, _, row, refl, (refl, tt))
        | inr e ↦
            rw e (numbered, omega arith, omega arith, [], sym (append-nil s.versions), refl, tt)
      ]

  -- After an edit of a document the version numbers of each document are still different, every
  -- earlier version is still there as it was, and the document's current version is a number that
  -- is above all the earlier ones and the highest in the table.
  pub edit-IsNumbered :
      (before after : Document) (user_id : Option ℕ) (change_type : Option Text) (s : Store)
      → after.id ≡ before.id
      → IsNumbered s.versions
      → let (n, (doc, s')) = edit before after user_id change_type s in
        IsNumbered s'.versions
        × (added : List DocumentVersion) × (s'.versions ≡ s.versions ++ added)
        × (max_version doc.id s.versions < doc.current_version)
        × (max_version doc.id s'.versions ≡ doc.current_version)
  unfolding save_new_version
  edit-IsNumbered before after user_id change_type s same numbered =
      let (numbered', top, above, added, kept, _, _) =
        create_versions_on_edit_lem before user_id s numbered in
      let (n, s') = create_versions_on_edit storage_root uuid_text before user_id s in
      let top' : max_version after.id s'.versions < n = rw same top in
      let (fresh, highest) = save_version-fresh after n user_id change_type s' numbered' top' in
      let (copy, row) = save_version-row after n user_id change_type s' in
      (
        fresh,
        added ++ version_row after n user_id change_type copy ∷ [],
        row
            ∙ (ap (λ vs. vs ++ version_row after n user_id change_type copy ∷ []) kept
                ∙ append_assoc s.versions added _),
        rw same above,
        highest,
      )
