-- ===== src/Documents/Bulk/Selected.antt =====
-- What the loops of `bulk_action` of backend/app/routers/documents.py select and write.
use local_ai_search.Prelude.{
  ℕ, ◌≡◌, refl, sym, ◌∙◌, ap, Bool, true, false, not, Option, none, some, List, [], ◌∷◌, ◌++◌, Text,
  arith, map, ◌==◌, select, find?, contains, All, All-select, All-In, In, In-find?, Bool-cases, inl,
  inr, select-append,
}
use mathlib.Core.Path.{subst}
use mathlib.Core.List.{append-nil}
use local_ai_search.Models.{User, Document, DocumentTag}
use local_ai_search.Documents.{Tables, any_document}
use local_ai_search.Documents.Bulk.{
  BulkActionRequest, keep_if, accessible_docs, ids_of, write_each, audit_each, replaced_docs, tag,
  new_tags, is_tag_of, is_replaced,
}

abbrev pub is_tag : ℕ → DocumentTag → Bool
is_tag document_id g = g.document_id == document_id

-- The row of the document is in the table as it was, and it has the tags that it had.
abbrev pub Untouched : Document → Tables → Tables → Type 0
Untouched d t t' =
    In d t'.db.documents × (select (is_tag d.id) t'.tags ≡ select (is_tag d.id) t.tags)

-- The rows of a table that pass a test.
abbrev pub Passing : (Document → Bool) → List Document → List Document → Type 0
Passing may docs = All (λ x. In x docs × (may x ≡ true))

keep_if-Passing :
    (may : Document → Bool) (id : ℕ) (docs sel : List Document) (o : Option Document)
    → find? (λ d. d.id == id) docs ≡ o
    → Passing may docs sel
    → Passing may docs (keep_if may o sel)
keep_if-Passing may id docs sel none e h = h
keep_if-Passing may id docs sel (some doc) e h = elim (Bool-cases (may doc)) [
  | inl p ↦ rw p ((In-find? (λ d. d.id == id) docs e, p), h)
  | inr p ↦ rw p h
]

pub accessible_docs-Passing :
    (may : Document → Bool) (ids : List ℕ) (docs : List Document)
    → Passing may docs (accessible_docs may ids docs)
unfolding accessible_docs any_document
accessible_docs-Passing may [] docs = tt
accessible_docs-Passing may (id ∷ ids) docs =
    keep_if-Passing may id docs (accessible_docs may ids docs) _ refl
      (accessible_docs-Passing may ids docs)

pub write_each-In :
    (sel : List Document) (write : Document → Document) (docs : List Document) (d : Document)
    → contains (ids_of sel) d.id ≡ false
    → In d docs
    → In d (write_each sel write docs)
unfolding write_each
write_each-In sel write [] d miss m = m
write_each-In sel write (x ∷ docs) d miss (inl e) = inl (rw (sym e, miss))
write_each-In sel write (x ∷ docs) d miss (inr m) = inr (write_each-In sel write docs d miss m)

pub audit_each-rows :
    (user : User) (action : Text) (docs : List Document) (t : Tables)
    → ((audit_each user action docs t).db.documents ≡ t.db.documents)
      × ((audit_each user action docs t).tags ≡ t.tags)
unfolding audit_each
audit_each-rows user action [] t = (refl, refl)
audit_each-rows user action (doc ∷ docs) t = audit_each-rows user action docs _

map-is_tag :
    (k j : ℕ) (tag_ids : List ℕ) → (j == k) ≡ false → select (is_tag k) (map (tag j) tag_ids) ≡ []
map-is_tag k j [] miss = refl
map-is_tag k j (i ∷ tag_ids) miss = rw miss (map-is_tag k j tag_ids miss)

new_tags-none :
    (wanted : ℕ → ℕ → Bool) (docs : List Document) (tag_ids : List ℕ) (k : ℕ)
    → contains (ids_of docs) k ≡ false
    → select (is_tag k) (new_tags wanted docs tag_ids) ≡ []
unfolding new_tags
new_tags-none wanted [] tag_ids k miss = refl
new_tags-none wanted (doc ∷ docs) tag_ids k miss =
    let here : (doc.id == k) ≡ false = ground arith in
    let later : contains (ids_of docs) k ≡ false = ground arith in
    rw (
      select-append (is_tag k) (map (tag doc.id) (select (wanted doc.id) tag_ids))
          (new_tags wanted docs tag_ids),
      map-is_tag k doc.id (select (wanted doc.id) tag_ids) here,
      new_tags-none wanted docs tag_ids k later,
    )

pub append-new_tags :
    (wanted : ℕ → ℕ → Bool) (docs : List Document) (tag_ids : List ℕ) (k : ℕ)
    (tags : List DocumentTag)
    → contains (ids_of docs) k ≡ false
    → select (is_tag k) (tags ++ new_tags wanted docs tag_ids) ≡ select (is_tag k) tags
append-new_tags wanted docs tag_ids k tags miss =
    select-append (is_tag k) tags (new_tags wanted docs tag_ids)
    ∙ (ap (λ more. select (is_tag k) tags ++ more) (new_tags-none wanted docs tag_ids k miss)
        ∙ append-nil (select (is_tag k) tags))

pub is_tag_of-other :
    (docs : List Document) (k : ℕ) (g : DocumentTag)
    → contains (ids_of docs) k ≡ false
    → is_tag k g ≡ true
    → is_tag_of docs g ≡ false
is_tag_of-other docs k g miss e = subst (λ i. contains (ids_of docs) i ≡ false) (ground arith) miss

pub not-true : (b : Bool) → not b ≡ false → b ≡ true
not-true true e = refl
not-true false e = sym e

pub replaced-In :
    (body : BulkActionRequest) (sel docs : List Document)
    → All (λ x. In x docs) (replaced_docs body sel docs)
replaced-In body sel docs = elim (Bool-cases body.overwrite) [
  | inl o ↦ rw o (All-select _ (is_replaced body.folder_id sel) docs (All-In docs))
  | inr o ↦ rw o tt
]
