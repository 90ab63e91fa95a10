-- ===== src/Notes/Siblings.antt =====
-- The siblings that `move_note` of backend/app/routers/notes.py puts in order are rows of the table.
use local_ai_search.Prelude.{
  ℕ, ℤ, ◌≡◌, Bool, false, not, Option, none, some, List, [], ◌∷◌, Text, map, arith, ◌==◌, length,
  take, select, contains, All, All-append, All-select, All-In, some_eq, All-take, All-drop, In,
  In-update_where, Bool-cases, inl, inr,
}
use local_ai_search.Models.{User, Document}
use local_ai_search.Documents.{Tables, with_documents}
use local_ai_search.Notes.{
  may_read, clamp, parent_hidden, siblings_of, insert_note, ordered, readable_notes,
  wanted_siblings, set_order, sorts_before,
}

pub ==_swap : (a b : ℕ) → (a == b) ≡ false → (b == a) ≡ false
==_swap a b e = ground arith

insert_note-All :
    (title_lt : Text → Text → Bool) (P : Document → Type 0) (d : Document) (docs : List Document)
    → P d
    → All P docs
    → All P (insert_note title_lt d docs)
unfolding insert_note
insert_note-All title_lt P d [] p h = (p, tt)
insert_note-All title_lt P d (x ∷ docs) p h = elim (Bool-cases (sorts_before title_lt x d)) [
  | inl t ↦ rw t (h.0, insert_note-All title_lt P d docs p h.1)
  | inr t ↦ rw t (p, h)
]

ordered-All :
    (title_lt : Text → Text → Bool) (P : Document → Type 0) (docs : List Document)
    → All P docs
    → All P (ordered title_lt docs)
unfolding ordered
ordered-All title_lt P [] h = tt
ordered-All title_lt P (d ∷ docs) h =
    insert_note-All title_lt P d (ordered title_lt docs) h.0 (ordered-All title_lt P docs h.1)

siblings_of-All :
    (P : Document → Type 0) (visible : List ℕ) (parent : Option ℕ) (readable : List Document)
    → All P readable
    → All P (siblings_of visible parent readable)
siblings_of-All P visible none readable h = All-select P (parent_hidden visible) readable h
siblings_of-All P visible (some parent_id) readable h =
    elim (Bool-cases (contains visible parent_id)) [
      | inl t ↦ rw t (All-select P (λ x. some_eq x.parent_note_id parent_id) readable h)
      | inr t ↦ rw t (All-select P (parent_hidden visible) readable h)
    ]

readable_notes-In :
    (title_lt : Text → Text → Bool) (user : User) (t : Tables)
    → All (λ s. In s t.db.documents) (readable_notes title_lt user t)
unfolding readable_notes
readable_notes-In title_lt user t =
    All-select _ (λ x. may_read x user t) _
      (ordered-All title_lt _ _ (All-select _ _ t.db.documents (All-In t.db.documents)))

pub wanted_siblings-In :
    (title_lt : Text → Text → Bool) (position : ℤ) (doc : Document) (user : User) (t : Tables)
    → In doc t.db.documents
    → All (λ s. In s t.db.documents) (wanted_siblings title_lt position doc user t)
wanted_siblings-In title_lt position doc user t m =
    let readable = readable_notes title_lt user t in
    let siblings =
      select (λ x. not (x.id == doc.id))
        (siblings_of (map (λ x. x.id) readable) doc.parent_note_id readable) in
    let all_in : All (λ s. In s t.db.documents) siblings =
      All-select _ (λ x. not (x.id == doc.id)) _
        (siblings_of-All _ _ doc.parent_note_id readable (readable_notes-In title_lt user t)) in
    All-append _ (take (clamp position (length siblings)) siblings) _
      (All-take _ (clamp position (length siblings)) siblings all_in)
      (m, All-drop _ (clamp position (length siblings)) siblings all_in)

pub set_order-In :
    (title_lt : Text → Text → Bool) (order : Option ℤ) (doc : Document) (docs : List Document)
    (d : Document) (t : Tables)
    → In d docs
    → (d.id == doc.id) ≡ false
    → In d (set_order title_lt order doc (with_documents docs t)).db.documents
set_order-In title_lt none doc docs d t m other = m
set_order-In title_lt (some order) doc docs d t m other =
    In-update_where (λ x. x.id == doc.id) (λ x. record x { note_order = order }) docs other m
