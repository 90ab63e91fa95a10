-- ===== src/Documents/Trash/Keeps.antt =====
-- The documents that `purge_from_trash` of backend/app/routers/documents.py leaves.
use local_ai_search.Prelude.{
  ℕ, ◌+◌, ◌≡◌, ◌≢◌, ◌⊎◌, All, All-select, All-select_test, All-update_where, In-update_where,
  In-update_where_hit, refl, sym, ◌∙◌, ap, true, false, not, ◌&&◌, Option, none, some, List, [],
  ◌∷◌, Text, arith, ◌==◌, some_eq, is_some, if◌then◌else◌, select, find?-test, In, UniqueBy,
  UniqueBy-same, UniqueBy-select, UniqueBy-update_where, In-find?, In-select, Bool-cases,
  Option-cases, inl, inr,
}
use mathlib.Core.Path.{subst}
use mathlib.Core.Bool.{false≢true}
use mathlib.Core.Option.{some-injective}
use local_ai_search.Models.{User, Document}
use local_ai_search.Documents.{Tables, owns_document}
use local_ai_search.Documents.Trash.{
  in_trash, trash_document, on_own, for_ids, purge_one, purge_from_trash,
}
use local_ai_search.Documents.Trash.Purge.{without, own_trashed, purge-documents}

-- The row has lost its parent, whose purge was asked for and which is gone.
abbrev Orphaned : Document → List (Option ℕ) → List Document → Type 0
Orphaned d ids docs =
    (k : ℕ) × (d.parent_note_id ≡ some k)
    × In (some k) ids
    × In (record d { parent_note_id = none }) docs
    × All (λ x. x.id ≢ k) docs

-- A row that a purge may not touch.
abbrev Kept : Document → List (Option ℕ) → List Document → Type 0
Kept d ids docs = In d docs ⊎ Orphaned d ids docs

All-without :
    (k j : ℕ) (docs : List Document)
    → All (λ x. x.id ≢ k) (select (λ x. not (x.id == j)) docs)
    → All (λ x. x.id ≢ k) (without j docs)
All-without k j docs h =
    All-update_where (λ x. x.id ≢ k) (λ x. x.id ≢ k) (λ x. some_eq x.parent_note_id j)
      (λ x. record x { parent_note_id = none }) (select (λ x. not (x.id == j)) docs) (λ x t p. p)
      (λ x t p. p) h

gone : (k : ℕ) (docs : List Document) → All (λ x. x.id ≢ k) (without k docs)
gone k docs =
    All-without k k docs
      (All-select_test (λ x. x.id ≢ k) (λ x. not (x.id == k)) docs (λ x t. ground arith))

some_eq-some : (o : Option ℕ) (k : ℕ) → some_eq o k ≡ true → o ≡ some k
some_eq-some none k e = cc
some_eq-some (some x) k e = ap some (ground arith)

module _ (k : ℕ) (d : Document) (ids : List (Option ℕ)) (docs : List Document)
    (other : (not (d.id == k)) ≡ true) where
  In-Kept : In (some k) ids → In d docs → Kept d ids (without k docs)
  In-Kept asked m =
      let m' = In-select (λ x. not (x.id == k)) docs m other in
      elim (Bool-cases (some_eq d.parent_note_id k)) [
        | inl p ↦ inr (
          k,
          some_eq-some d.parent_note_id k p,
          asked,
          In-update_where_hit (λ x. some_eq x.parent_note_id k)
              (λ x. record x { parent_note_id = none }) (select (λ x. not (x.id == k)) docs) p m',
          gone k docs,
        )
        | inr p ↦ inl (
            In-update_where (λ x. some_eq x.parent_note_id k)
              (λ x. record x { parent_note_id = none }) (select (λ x. not (x.id == k)) docs) p m')
      ]

  Orphaned-Kept : Orphaned d ids docs → Kept d ids (without k docs)
  Orphaned-Kept (j, parent, asked, m, out) = inr (
    j,
    parent,
    asked,
    In-update_where (λ x. some_eq x.parent_note_id k) (λ x. record x { parent_note_id = none })
        (select (λ x. not (x.id == k)) docs) refl (In-select (λ x. not (x.id == k)) docs m other),
    All-without j k docs (All-select (λ x. x.id ≢ j) (λ x. not (x.id == k)) docs out),
  )

  Kept-without : In (some k) ids → Kept d ids docs → Kept d ids (without k docs)
  Kept-without asked (inl m) = In-Kept asked m
  Kept-without asked (inr o) = Orphaned-Kept o

UniqueBy-without :
    (k : ℕ) (docs : List Document)
    → UniqueBy (λ x. x.id) docs
    → UniqueBy (λ x. x.id) (without k docs)
UniqueBy-without k docs u =
    UniqueBy-update_where (λ x. x.id) (λ x. some_eq x.parent_note_id k)
      (λ x. record x { parent_note_id = none }) (λ x. refl) _
      (UniqueBy-select (λ x. x.id) (λ x. not (x.id == k)) docs u)

on_own-found :
    (user : User) (act : Document → Tables → Tables) (doc : Document) (t : Tables) {t' : Tables}
    → (if owns_document user doc then some (act doc t) else none) ≡ some t'
    → (owns_document user doc ≡ true) × (act doc t ≡ t')
on_own-found user act doc t {t'} e = elim (Bool-cases (owns_document user doc)) [
  | inl p ↦ (p, some-injective (act doc t) t' (rw p at e))
  | inr p ↦ absurd (ground arith)
]

on_own-some :
    (user : User) (act : Document → Tables → Tables) (o : Option Document) (t : Tables)
    {t' : Tables}
    → on_own user act o t ≡ some t'
    → (doc : Document) × (o ≡ some doc) × (owns_document user doc ≡ true) × (act doc t ≡ t')
on_own-some user act none t e = cc
on_own-some user act (some doc) t e =
    let (owned, done) = on_own-found user act doc t e in (doc, refl, owned, done)

module _ (storage_root preview_dir : Text) (uuid_text : ℕ → Text) (user : User) where
  owned_other :
      (d doc : Document) (docs : List Document)
      → own_trashed user d ≡ false
      → own_trashed user doc ≡ true
      → UniqueBy (λ x. x.id) docs
      → In d docs
      → In doc docs
      → d.id ≢ doc.id
  owned_other d doc docs other own u m m' e =
      false≢true
        (sym other ∙ (ap (own_trashed user) (UniqueBy-same (λ x. x.id) docs u m m' e) ∙ own))

  own-Kept :
      (d doc : Document) (ids : List (Option ℕ)) (docs : List Document)
      → own_trashed user d ≡ false
      → own_trashed user doc ≡ true
      → UniqueBy (λ x. x.id) docs
      → Kept d ids docs
      → In doc docs
      → d.id ≢ doc.id
  own-Kept d doc ids docs other own u (inl m) m' = owned_other d doc docs other own u m m'
  own-Kept d doc ids docs other own u (inr o) m' =
      owned_other (record d { parent_note_id = none }) doc docs other own u o.3 m'

  -- What one id of a request does to the table keeps its ids apart, and keeps the rows of others.
  purge_one-Kept :
      (d : Document) (ids : List (Option ℕ)) (j : ℕ) (t : Tables) {t' : Tables}
      → In (some j) ids
      → own_trashed user d ≡ false
      → UniqueBy (λ x. x.id) t.db.documents
      → Kept d ids t.db.documents
      → purge_one storage_root preview_dir uuid_text user j t ≡ some t'
      → UniqueBy (λ x. x.id) t'.db.documents × Kept d ids t'.db.documents
  unfolding purge_one
  purge_one-Kept d ids j t asked own u kept e =
      let (doc, there, owned, done) = on_own-some user _ (trash_document j t.db.documents) t e in
      let in_trash_ = find?-test (in_trash j) t.db.documents there in
      let is_j : doc.id ≡ j = ground arith in
      let other : d.id ≢ doc.id =
        own-Kept d doc ids t.db.documents own (ground arith) u kept
          (In-find? (in_trash j) t.db.documents there) in
      subst (λ (s : Tables). UniqueBy (λ x. x.id) s.db.documents × Kept d ids s.db.documents) done
        (rw (purge-documents storage_root preview_dir uuid_text user doc t) (
          UniqueBy-without doc.id t.db.documents u,
          Kept-without doc.id d ids t.db.documents (ground arith) (rw is_j asked) kept,
        ))

  for_ids-Kept :
      (d : Document) (all ids : List (Option ℕ)) (n : ℕ) (t : Tables)
      → ((x : Option ℕ) → In x ids → In x all)
      → own_trashed user d ≡ false
      → UniqueBy (λ x. x.id) t.db.documents
      → Kept d all t.db.documents
      → Kept d all
          (for_ids (purge_one storage_root preview_dir uuid_text user) ids (n, t)).1.db.documents
  unfolding for_ids
  for_ids-Kept d all [] n t part own u kept = kept
  for_ids-Kept d all (none ∷ ids) n t part own u kept =
      for_ids-Kept d all ids n t (λ x m. part x (inr m)) own u kept
  for_ids-Kept d all (some j ∷ ids) n t part own u kept =
      elim (Option-cases (purge_one storage_root preview_dir uuid_text user j t)) [
        | inl e ↦ rw (for_ids, e) (for_ids-Kept d all ids n t (λ x m. part x (inr m)) own u kept)
        | inr (t', e) ↦
            let (u', kept') = purge_one-Kept d all j t (part (some j) (inl refl)) own u kept e in
            rw (for_ids, e) (for_ids-Kept d all ids (n + 1) t' (λ x m. part x (inr m)) own u' kept')
      ]

  -- Whatever ids are sent, a purge leaves the documents that are not in the trash or belong to somebody
  -- else (for a user who is no administrator): each stays as it is, except that it loses the link to
  -- a parent note that was to be purged and of which no row is left. The ids of the table are
  -- different.
  pub purge_from_trash-keeps :
      (ids : List (Option ℕ)) (t : Tables) (d : Document)
      → UniqueBy (λ x. x.id) t.db.documents
      → In d t.db.documents
      → (is_some d.deleted_at && owns_document user d) ≡ false
      → let docs =
          (purge_from_trash storage_root preview_dir uuid_text ids user t).1.db.documents in
        In d docs
        ⊎ ((k : ℕ) × (d.parent_note_id ≡ some k)
            × In (some k) ids
            × In (record d { parent_note_id = none }) docs
            × All (λ x. x.id ≢ k) docs)
  unfolding purge_from_trash
  purge_from_trash-keeps ids t d u m own = for_ids-Kept d ids ids 0 t (λ x h. h) own u (inl m)
