-- ===== src/Documents/Trash/RoundTrip.antt =====
-- `delete_document` and `restore_from_trash` of backend/app/routers/documents.py, one after the other.
use local_ai_search.Prelude.{
  ℕ, ◌≡◌, refl, sym, ◌∙◌, ap, true, false, Option, none, some, List, [], ◌∷◌, codes, arith, ◌==◌,
  is_none, find?-test, All, All-of_In, All-update_where, UniqueBy, UniqueBy-same, In-find?,
  Bool-cases, inl, inr,
}
use mathlib.Core.Option.{some-injective}
use local_ai_search.Models.{User, Document}
use local_ai_search.Session.{reply}
use local_ai_search.Documents.{
  Tables, live, live_document, owns_document, delete_document, move_to_trash, write_document,
  detach_notes, trashed_at, is_child_note, audited, with_documents,
}
use local_ai_search.Documents.Access.{owns-may_write}
use local_ai_search.Documents.Trash.{
  trash_document, for_ids, restore_one, restore_from_trash, untrash,
}

-- The rows of the document that is deleted are live.
abbrev Untrashed : ℕ → List Document → Type 0
Untrashed k = All (λ x. (x.id == k) ≡ true → x.deleted_at ≡ none)

none-is_none : (o : Option ℕ) → is_none o ≡ true → o ≡ none
none-is_none none e = refl
none-is_none (some x) e = cc

live_document-Untrashed :
    (k : ℕ) (docs : List Document) (doc : Document)
    → UniqueBy (λ d. d.id) docs
    → live_document k docs ≡ some doc
    → Untrashed k docs
unfolding live_document
live_document-Untrashed k docs doc u e =
    let t : live k doc ≡ true = find?-test (live k) docs e in
    All-of_In _ docs (λ x m p.
      let same : x ≡ doc =
        UniqueBy-same (λ d. d.id) docs u m (In-find? (live k) docs e) (ground arith) in
      none-is_none x.deleted_at (ap (λ y. is_none y.deleted_at) same ∙ ground arith))

restored_rows :
    (now k : ℕ) (docs : List Document)
    → Untrashed k docs
    → write_document k
        (λ d. record d { deleted_at = none })
        (write_document k (trashed_at now) docs)
      ≡ docs
restored_rows now k [] h = refl
restored_rows now k (d ∷ docs) h = elim (Bool-cases (d.id == k)) [
  | inl p ↦ rw p (
      rw (p, restored_rows now k docs h.1)
        (ap (λ o. record d { deleted_at = o } ∷ docs) (sym (h.0 p))))
  | inr p ↦ rw p (rw (p, restored_rows now k docs h.1))
]

detach_notes-none :
    (k : ℕ) (docs : List Document)
    → All (λ d. is_child_note k d ≡ false) docs
    → detach_notes k docs ≡ docs
unfolding detach_notes
detach_notes-none k [] h = refl
detach_notes-none k (d ∷ docs) h = rw (h.0, detach_notes-none k docs h.1)

trashed-children :
    (now k j : ℕ) (docs : List Document)
    → All (λ d. is_child_note k d ≡ false) docs
    → All (λ d. is_child_note k d ≡ false) (write_document j (trashed_at now) docs)
trashed-children now k j docs h =
    All-update_where _ _ (λ d. d.id == j) (trashed_at now) docs (λ d t e. e) (λ d t e. e) h

move_to_trash-childless :
    (now : ℕ) (doc : Document) (docs : List Document)
    → All (λ d. is_child_note doc.id d ≡ false) docs
    → move_to_trash now doc docs ≡ write_document doc.id (trashed_at now) docs
unfolding move_to_trash
move_to_trash-childless now doc docs h = elim (Bool-cases doc.is_note) [
  | inl p ↦ rw p (detach_notes-none doc.id _ (trashed-children now doc.id doc.id docs h))
  | inr p ↦ rw p
]

trash_document-trashed :
    (now k : ℕ) (docs : List Document) (doc : Document)
    → live_document k docs ≡ some doc
    → Untrashed k docs
    → trash_document k (write_document k (trashed_at now) docs) ≡ some (trashed_at now doc)
unfolding live_document
trash_document-trashed now k [] doc e h = cc
trash_document-trashed now k (d ∷ docs) doc e h = elim (Bool-cases (d.id == k)) [
  | inl p ↦
      let hit : live k d ≡ true = rw (p, h.0 p) in
      let same : d ≡ doc = some-injective d doc (rw hit at e) in
      rw p (rw p (ap (λ x. some (trashed_at now x)) same))
  | inr p ↦ rw p (rw p (trash_document-trashed now k docs doc (rw p at e) h.1))
]

restore_from_trash-found :
    (user : User) (k : ℕ) (t : Tables) {doc : Document}
    → trash_document k t.db.documents ≡ some doc
    → owns_document user doc ≡ true
    → restore_from_trash (some k ∷ []) user t ≡ (1, untrash user doc t)
unfolding restore_from_trash for_ids restore_one
restore_from_trash-found user k t e own = rw (e, own)

live_document-id :
    (k : ℕ) (docs : List Document) {doc : Document} → live_document k docs ≡ some doc → doc.id ≡ k
unfolding live_document
live_document-id k docs e = ground (arith, find?-test (live k) docs e)

-- A document that its owner (or an administrator) deletes and then restores: both requests succeed, one
-- document is restored, and the table of documents is as it was before. The ids of the table are
-- different, and the document has no child notes.
pub delete_document-restore_from_trash :
    (now k : ℕ) (user : User) (t : Tables) (doc : Document)
    → UniqueBy (λ d. d.id) t.db.documents
    → live_document k t.db.documents ≡ some doc
    → owns_document user doc ≡ true
    → All (λ d. is_child_note k d ≡ false) t.db.documents
    → (t' : Tables) × (delete_document now k user t ≡ reply t')
      × let (n, t'') = restore_from_trash (some k ∷ []) user t' in
        (n ≡ 1) × (t''.db.documents ≡ t.db.documents)
unfolding delete_document
delete_document-restore_from_trash now k user t doc u e own childless =
    let same : doc.id ≡ k = live_document-id k t.db.documents e in
    let is_live = live_document-Untrashed k t.db.documents doc u e in
    let moved : move_to_trash now doc t.db.documents
        ≡ write_document k (trashed_at now) t.db.documents =
      move_to_trash-childless now doc t.db.documents (rw same childless) ∙ rw same in
    let t' =
      audited user (codes "document.delete") doc.id
        (with_documents (move_to_trash now doc t.db.documents) t) in
    let back : restore_from_trash (some k ∷ []) user t'
        ≡ (1, untrash user (trashed_at now doc) t') =
      restore_from_trash-found user k t' {doc = trashed_at now doc}
        (rw moved (trash_document-trashed now k t.db.documents doc e is_live)) own in
    (
      t',
      rw (e, owns-may_write doc user t own),
      (
        ap (λ r. r.0) back,
        ap (λ r. r.1.db.documents) back
            ∙ (ap (write_document doc.id (λ d. record d { deleted_at = none })) moved
                ∙ rw same (restored_rows now k t.db.documents is_live)),
      ),
    )
