-- ===== src/Documents/Trash/Purge.antt =====
-- What `purge_from_trash` and `empty_trash` of backend/app/routers/documents.py remove.
use local_ai_search.Prelude.{
  ℕ, ◌+◌, ◌≡◌, ◌≢◌, refl, sym, ◌∙◌, ap, Bool, true, false, not, ◌&&◌, Option, none, some, List, [],
  ◌∷◌, Text, arith, map, ◌==◌, some_eq, is_some, if◌then◌else◌, select, find?-test, update_where,
  All, All-both, All-at, All-select_and, All-In, All-of_In, In, UniqueBy, UniqueBy-select,
  Bool-cases, inl, inr,
}
use local_ai_search.Models.{User, Document}
use local_ai_search.Documents.{Tables, owns_document}
use local_ai_search.Documents.Trash.{
  in_trash, trash_document, for_ids, delete_rows, purge, purge_one, purge_from_trash, purge_each,
  empty_trash,
}

-- The documents behind `db.delete` of the one with the id.
abbrev pub orphaned : ℕ → Document → Document
orphaned k d = if some_eq d.parent_note_id k then record d { parent_note_id = none } else d

abbrev pub without : ℕ → List Document → List Document
without k docs =
    update_where (λ d. some_eq d.parent_note_id k) (λ d. record d { parent_note_id = none })
      (select (λ d. not (d.id == k)) docs)

-- The test of the trash's loops on a row.
abbrev pub own_trashed : User → Document → Bool
own_trashed user d = is_some d.deleted_at && owns_document user d

-- An id whose document the loops would act on.
abbrev Found : User → List Document → ℕ → Type 0
Found user docs j =
    (e : Document) × (trash_document j docs ≡ some e) × (owns_document user e ≡ true)

orphaned-owned :
    (user : User) (k : ℕ) (d : Document)
    → owns_document user d ≡ true
    → owns_document user (orphaned k d) ≡ true
orphaned-owned user k d e = elim (Bool-cases (some_eq d.parent_note_id k)) [
  | inl p ↦ rw p e
  | inr p ↦ rw p e
]

orphaned-test : (k j : ℕ) (d : Document) → in_trash j (orphaned k d) ≡ in_trash j d
orphaned-test k j d = elim (Bool-cases (some_eq d.parent_note_id k)) [ inl p ↦ rw p | inr p ↦ rw p ]

trash_document-without :
    (k j : ℕ) (docs : List Document) {e : Document}
    → j ≢ k
    → trash_document j docs ≡ some e
    → trash_document j (without k docs) ≡ some (orphaned k e)
trash_document-without k j [] n h = cc
trash_document-without k j (d ∷ docs) {e} n h = elim (Bool-cases (d.id == k)) [
  | inl p ↦
      let miss : in_trash j d ≡ false = ground arith in
      rw p (trash_document-without k j docs n (rw miss at h))
  | inr p ↦ elim (Bool-cases (in_trash j d)) [
    | inl t ↦
        rw (p, orphaned-test k j d, t)
          (ap (λ x. elim x [ none ↦ none | some y ↦ some (orphaned k y) ]) (rw t at h))
    | inr t ↦ rw (p, orphaned-test k j d, t) (trash_document-without k j docs n (rw t at h))
  ]
]

Found-without :
    (user : User) (k j : ℕ) (docs : List Document)
    → j ≢ k
    → Found user docs j
    → Found user (without k docs) j
Found-without user k j docs n (e, there, owned) =
    (orphaned k e, trash_document-without k j docs n there, orphaned-owned user k e owned)

trash_document-of_In :
    (docs : List Document) (d : Document)
    → UniqueBy (λ x. x.id) docs
    → In d docs
    → is_some d.deleted_at ≡ true
    → trash_document d.id docs ≡ some d
trash_document-of_In [] d u m t = elim m [ ]
trash_document-of_In (x ∷ docs) d u (inl e) t = ground (arith, e, t)
trash_document-of_In (x ∷ docs) d u (inr m) t =
    let other : d.id ≢ x.id = All-at (λ y. y.id ≢ x.id) docs u.0 m in
    let miss : in_trash d.id x ≡ false = ground arith in
    rw miss (trash_document-of_In docs d u.1 m t)

Found-of_own :
    (user : User) (docs : List Document) (d : Document)
    → UniqueBy (λ x. x.id) docs
    → In d (select (own_trashed user) docs)
    → Found user docs d.id
Found-of_own user docs d u m =
    let (there, own) =
      All-at (λ x. In x docs × (own_trashed user x ≡ true)) (select (own_trashed user) docs)
        (All-select_and (λ x. In x docs) (own_trashed user) docs (All-In docs)) m in
    (d, trash_document-of_In docs d u there (ground arith), ground arith)

for_ids-some :
    (act : ℕ → Tables → Option Tables) (id : ℕ) (ids : List (Option ℕ)) (n : ℕ) (t : Tables)
    {t' : Tables}
    → act id t ≡ some t'
    → for_ids act (some id ∷ ids) (n, t) ≡ for_ids act ids (n + 1, t')
unfolding for_ids
for_ids-some act id ids n t e = rw e

module _ (storage_root preview_dir : Text) (uuid_text : ℕ → Text) (user : User) where
  pub purge-documents :
      (doc : Document) (t : Tables)
      → (purge storage_root preview_dir uuid_text user doc t).db.documents
        ≡ without doc.id t.db.documents
  unfolding purge delete_rows
  purge-documents doc t = refl

  -- A purge reads the id of the document only.
  purge-id :
      (d e : Document) (t : Tables)
      → e.id ≡ d.id
      → purge storage_root preview_dir uuid_text user e t
        ≡ purge storage_root preview_dir uuid_text user d t
  unfolding purge delete_rows
  purge-id d e t p = rw p

  purge_one-Found :
      (d : Document) (t : Tables)
      → Found user t.db.documents d.id
      → purge_one storage_root preview_dir uuid_text user d.id t
        ≡ some (purge storage_root preview_dir uuid_text user d t)
  unfolding purge_one
  purge_one-Found d t (e, there, owned) =
      let same : e.id ≡ d.id = ground (arith, find?-test (in_trash d.id) t.db.documents there) in
      rw (there, owned, purge-id d e t same)

  purge_each-for_ids :
      (ds : List Document) (n : ℕ) (t : Tables)
      → UniqueBy (λ x. x.id) ds
      → All (λ d. Found user t.db.documents d.id) ds
      → purge_each storage_root preview_dir uuid_text user ds (n, t)
        ≡ for_ids
            (purge_one storage_root preview_dir uuid_text user)
            (map (λ d. some d.id) ds)
            (n, t)
  unfolding purge_each for_ids
  purge_each-for_ids [] n t u h = refl
  purge_each-for_ids (d ∷ ds) n t u h =
      let t' = purge storage_root preview_dir uuid_text user d t in
      let later : All (λ e. Found user t'.db.documents e.id) ds = rw (purge-documents d t) (
        All-both (λ e. e.id ≢ d.id) (λ e. Found user t.db.documents e.id) _ ds
          (λ e other found. Found-without user d.id e.id t.db.documents other found) u.0 h.1) in
      purge_each-for_ids ds (n + 1) t' u.1 later
      ∙ sym (
          for_ids-some (purge_one storage_root preview_dir uuid_text user) d.id
            (map (λ e. some e.id) ds) n t (purge_one-Found d t h.0))

  -- With different ids in the table, to empty the trash is to purge the ids of the user's own documents
  -- in it (of all in it, for an administrator), in the order of the table.
  pub empty_trash-purge_from_trash :
      (t : Tables)
      → UniqueBy (λ d. d.id) t.db.documents
      → let own = select (λ d. is_some d.deleted_at && owns_document user d) t.db.documents in
        empty_trash storage_root preview_dir uuid_text user t
        ≡ purge_from_trash storage_root preview_dir uuid_text (map (λ d. some d.id) own) user t
  unfolding empty_trash purge_from_trash
  empty_trash-purge_from_trash t u =
      purge_each-for_ids (select (own_trashed user) t.db.documents) 0 t
        (UniqueBy-select (λ d. d.id) (own_trashed user) t.db.documents u)
        (All-of_In _ _ (λ d m. Found-of_own user t.db.documents d u m))
