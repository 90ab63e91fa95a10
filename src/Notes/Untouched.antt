-- ===== src/Notes/Untouched.antt =====
-- The documents that the endpoints of backend/app/routers/notes.py leave as they are.
use local_ai_search.Prelude.{
  ℕ, ◌≡◌, refl, sym, ◌∙◌, ap, Bool, true, false, ◌&&◌, Option, none, some, List, ◌∷◌, Text, map,
  arith, ◌==◌, is_none, select, contains, All, All-select_and, ==_refl, Option-cases, All-map, In,
  In-find?, In-update_where, In-update_where_hit, UniqueBy, UniqueBy-same, UniqueBy-update_where,
  Bool-cases, inl, inr,
}
use mathlib.Core.Path.{subst}
use mathlib.Core.Bool.{false≢true}
use mathlib.Core.Option.{some-injective}
use local_ai_search.Models.{User, Document}
use local_ai_search.Session.{
  Reply, reply, http_error, required, answered, found_row, reply-injective,
}
use local_ai_search.Folders.Update.{continue_with-some}
use local_ai_search.Documents.{
  Tables, any_document, may_write, with_documents, write_document, is_child_note,
}
use local_ai_search.Documents.Access.{contains-others}
use local_ai_search.Notes.{
  NoteMove, live_note, own_note, writable, detach_children, cleared, remove_note,
  delete_note_with_file, new_parent, item_of, wanted_siblings, place_note, order_note, under_parent,
  move_found, move_note,
}
use local_ai_search.Notes.Orders.{place_orders}
use local_ai_search.Notes.Siblings.{==_swap, wanted_siblings-In, set_order-In}
use local_ai_search.Notes.Kept.{place_orders-Kept, set_orders-In}

second_false : (b c : Bool) → c ≡ false → (b && c) ≡ false
second_false true c e = e
second_false false c e = refl

own_note-found :
    (k : ℕ) (user : User) (t : Tables) {doc : Document}
    → own_note k user t ≡ reply doc
    → In doc t.db.documents × (may_write doc user t ≡ true)
unfolding any_document
own_note-found k user t {doc} e =
    let (row, there, e1) = found_row (any_document k t.db.documents) 404 _ e in
    let (_, e2) = required (live_note row) 404 _ e1 in
    let (writes, e3) = required (may_write row user t) 403 _ e2 in
    let same = reply-injective row doc e3 in
    subst (λ d. In d t.db.documents × (may_write d user t ≡ true)) same
      (In-find? (λ d. d.id == k) t.db.documents there, writes)

module _ (user : User) (t : Tables) (d : Document) (u : UniqueBy (λ x. x.id) t.db.documents)
    (there : In d t.db.documents) (closed : may_write d user t ≡ false) where
  other_id :
      (doc : Document)
      → In doc t.db.documents
      → may_write doc user t ≡ true
      → (d.id == doc.id) ≡ false
  other_id doc m w = elim (Bool-cases (d.id == doc.id)) [
    | inl p ↦
        let same : d ≡ doc = UniqueBy-same (λ x. x.id) t.db.documents u there m (ground arith) in
        absurd (false≢true (sym closed ∙ (ap (λ x. may_write x user t) same ∙ w)))
    | inr p ↦ p
  ]

  write-In :
      (doc : Document) (write : Document → Document) (docs : List Document)
      → In doc t.db.documents
      → may_write doc user t ≡ true
      → In d docs
      → In d (write_document doc.id write docs)
  write-In doc write docs m w h =
      In-update_where (λ x. x.id == doc.id) write docs (other_id doc m w) h

  detach_children-In : (k : ℕ) → In d (detach_children k user t t.db.documents)
  unfolding detach_children
  detach_children-In k =
      In-update_where (λ x. is_child_note k x && may_write x user t) _ t.db.documents
        (second_false (is_child_note k d) (may_write d user t) closed) there

  remove_note-In : (k : ℕ) {t' : Tables} → remove_note k user t ≡ reply t' → In d t'.db.documents
  unfolding remove_note
  remove_note-In k {t'} e =
      let (doc, own, e1) = answered (own_note k user t) _ e in
      let (m, w) = own_note-found k user t own in
      subst (λ (r : Tables). In d r.db.documents) (reply-injective _ t' e1)
        (write-In doc cleared _ m w (detach_children-In k))

  delete_note_with_file-In :
      (now k : ℕ) {t' : Tables}
      → delete_note_with_file now k user t ≡ reply t'
      → In d t'.db.documents
  unfolding delete_note_with_file any_document
  delete_note_with_file-In now k {t'} e =
      let (doc, row, e1) = found_row (any_document k t.db.documents) 404 _ e in
      let (_, e2) = required (is_none doc.deleted_at) 404 _ e1 in
      let (w, e3) = required (may_write doc user t) 403 _ e2 in
      subst (λ (r : Tables). In d r.db.documents) (reply-injective _ t' e3)
        (write-In doc _ _ (In-find? (λ x. x.id == k) t.db.documents row) w (detach_children-In k))

module _ (title_lt : Text → Text → Bool) (user : User) (t : Tables) (d : Document)
    (u : UniqueBy (λ x. x.id) t.db.documents) (there : In d t.db.documents)
    (closed : may_write d user t ≡ false) where
  place_note-In :
      (sibs : List Document) (doc : Document) (docs : List Document) {t' : Tables}
      → UniqueBy (λ x. x.id) docs
      → In d docs
      → (doc.id == d.id) ≡ false
      → All (λ s. In s docs) sibs
      → place_note title_lt sibs doc user (with_documents docs t) ≡ reply t'
      → In d t'.db.documents
  place_note-In sibs doc docs {t'} u' m other all_in e =
      let ids = doc.id ∷ writable user t sibs in
      let (orders, placed, e1) = found_row (place_orders (map (item_of ids) sibs)) 409 _ e in
      let hidden : contains ids d.id ≡ false = rw other (
        contains-others (λ x. may_write x user t) docs (select (λ x. may_write x user t) sibs) d u'
          m closed (All-select_and (λ s. In s docs) (λ x. may_write x user t) sibs all_in)) in
      let fixed : All
          (λ s. s.id ≡ d.id → (contains ids s.id ≡ false) × (s.note_order ≡ d.note_order)) sibs =
        All-map (λ s. In s docs) _ sibs
          (λ s m' same.
            let equal : s ≡ d = UniqueBy-same (λ x. x.id) docs u' m' m same in
            (ap (λ x. contains ids x.id) equal ∙ hidden, ap (λ x. x.note_order) equal))
          all_in in
      subst (λ (r : Tables). In d r.db.documents) (reply-injective _ t' e1)
        (set_orders-In (λ s. contains ids s.id) sibs orders docs d
          (place_orders-Kept (map (item_of ids) sibs) orders placed) fixed m)

  order_note-In :
      (body : NoteMove) (doc : Document) (docs : List Document) {t' : Tables}
      → UniqueBy (λ x. x.id) docs
      → In doc docs
      → In d docs
      → (d.id == doc.id) ≡ false
      → order_note title_lt body doc user (with_documents docs t) ≡ reply t'
      → In d t'.db.documents
  unfolding order_note
  order_note-In body doc docs {t'} u' own m other e = elim (Option-cases body.position) [
    | inl p ↦
        subst (λ (r : Tables). In d r.db.documents) (reply-injective _ t' (rw p at e))
          (set_order-In title_lt body.note_order doc docs d t m other)
    | inr (position, p) ↦
        place_note-In (wanted_siblings title_lt position doc user (with_documents docs t)) doc docs
          u' m (==_swap d.id doc.id other)
          (wanted_siblings-In title_lt position doc user (with_documents docs t) own) (rw p at e)
  ]

  under_parent-In :
      (body : NoteMove) (doc : Document) (parent : Reply (Option ℕ)) {t' : Tables}
      → In doc t.db.documents
      → may_write doc user t ≡ true
      → under_parent title_lt body doc user t parent ≡ reply t'
      → In d t'.db.documents
  under_parent-In body doc (http_error status) m w e = absurd (ground arith)
  under_parent-In body doc (reply parent_id) m w e =
      let move : Document → Document = λ x. record x { parent_note_id = parent_id } in
      order_note-In body (move doc) (write_document doc.id move t.db.documents)
        (UniqueBy-update_where (λ x. x.id) (λ x. x.id == doc.id) move (λ x. refl) t.db.documents u)
        (In-update_where_hit (λ x. x.id == doc.id) move t.db.documents (==_refl doc.id) m)
        (write-In user t d u there closed doc move t.db.documents m w there)
        (other_id user t d u there closed doc m w) e

  move_found-In :
      (k : ℕ) (body : NoteMove) (own : Reply Document) {t' : Tables}
      → own_note k user t ≡ own
      → move_found title_lt body user t own ≡ some (reply t')
      → In d t'.db.documents
  move_found-In k body (http_error status) o e = absurd (ground arith)
  move_found-In k body (reply doc) {t'} o e =
      let (m, w) = own_note-found k user t o in
      let (parent, p, e1) = continue_with-some (new_parent body.parent_note_id doc user t) _ e in
      under_parent-In body doc parent m w (some-injective _ (reply t') e1)

-- If the request is answered, the document's row is in the table as it was.
abbrev pub Leaves : Document → Reply Tables → Type 0
Leaves d (http_error status) = Unit
Leaves d (reply t) = In d t.db.documents

abbrev pub LeavesIfEnds : Document → Option (Reply Tables) → Type 0
LeavesIfEnds d none = Unit
LeavesIfEnds d (some answer) = Leaves d answer

Leaves-of_reply :
    (d : Document) (answer : Reply Tables)
    → ((t : Tables) → answer ≡ reply t → In d t.db.documents)
    → Leaves d answer
Leaves-of_reply d (http_error status) f = tt
Leaves-of_reply d (reply t) f = f t refl

LeavesIfEnds-of_reply :
    (d : Document) (o : Option (Reply Tables))
    → ((t : Tables) → o ≡ some (reply t) → In d t.db.documents)
    → LeavesIfEnds d o
LeavesIfEnds-of_reply d none f = tt
LeavesIfEnds-of_reply d (some answer) f = Leaves-of_reply d answer (λ t e. f t (ap (λ r. some r) e))

-- A document that the user may not write stays as it is when a note is unmarked, deleted or moved: where
-- the request is answered, its row is still in the table, unchanged, with its parent note and its
-- order among its siblings. The ids of the table are different, and `title_lt` is the database's order of
-- the titles.
pub notes-untouched :
    (title_lt : Text → Text → Bool) (now k : ℕ) (body : NoteMove) (user : User) (t : Tables)
    (d : Document)
    → UniqueBy (λ x. x.id) t.db.documents
    → In d t.db.documents
    → may_write d user t ≡ false
    → Leaves d (remove_note k user t)
      × Leaves d (delete_note_with_file now k user t)
      × LeavesIfEnds d (move_note title_lt k body user t)
unfolding move_note
notes-untouched title_lt now k body user t d u there closed = (
  Leaves-of_reply d (remove_note k user t) (λ t' e. remove_note-In user t d u there closed k e),
  Leaves-of_reply d (delete_note_with_file now k user t)
      (λ t' e. delete_note_with_file-In user t d u there closed now k e),
  LeavesIfEnds-of_reply d _
      (λ t' e. move_found-In title_lt user t d u there closed k body (own_note k user t) refl e),
)
