-- ===== src/Notes.antt =====
-- backend/app/routers/notes.py: `move_note`, `remove_note` and `delete_note_with_file`. The text of notes is left out.
pub mod Orders
pub mod Kept
pub mod Siblings
pub mod Untouched
mod Tests
use local_ai_search.Prelude.{
  ℕ, zero, suc, ◌+◌, ℤ, pos, negsuc, ltb_ℤ, Bool, true, false, not, ◌&&◌, ◌||◌, Option, none, some,
  List, [], ◌∷◌, ◌++◌, Text, text_eq, map, ◌==◌, some_eq, option_eq, is_none, min, if◌then◌else◌,
  length, take, drop, select, find?, update_where, contains,
}
use local_ai_search.Models.{User, Document, Db}
use local_ai_search.Session.{Reply, http_error, reply, ◌>>=◌, ◌>>◌, require, found}
use local_ai_search.Permissions.{
  can_access_document, build_visibility_filter, get_user_group_ids, in_values,
}
use local_ai_search.Folders.Update.{or_old, continue_with}
use local_ai_search.Documents.{
  Tables, any_document, may_write, with_documents, write_document, is_child_note,
}
use local_ai_search.Notes.Orders.{Item, place_orders}

abbrev pub may_read : Document → User → Tables → Bool
may_read doc user t = can_access_document doc user false (some t.db.members)

abbrev pub live_note : Document → Bool
live_note d = d.is_note && is_none d.deleted_at

-- `_require_access` for a write
abbrev pub require_access : Document → User → Tables → Reply (Unit {0})
require_access doc user t = require (may_write doc user t) 403

-- The note of the request, which the user may change.
abbrev pub own_note : (note_id : ℕ) → User → Tables → Reply Document
own_note note_id user t = found (any_document note_id t.db.documents) 404 >>= λ doc.
    require (live_note doc) 404 >> (require_access doc user t >> reply doc)

unfoldable pub readable_parent : (parent_id : ℕ) → User → Tables → Reply Document
unfolding any_document
readable_parent parent_id user t = found (any_document parent_id t.db.documents) 404 >>= λ parent.
    require (live_note parent && may_read parent user t) 404 >> reply parent

-- The ids of the notes that the user may change.
abbrev pub writable : User → Tables → List Document → List ℕ
writable user t docs = map (λ d. d.id) (select (λ d. may_write d user t) docs)

unfoldable pub detach_children : (note_id : ℕ) → User → Tables → List Document → List Document
detach_children note_id user t =
    update_where (λ d. is_child_note note_id d && may_write d user t)
      (λ d. record d { parent_note_id = none })

abbrev pub cleared : Document → Document
cleared d = record d {
  is_note = false;
  note_content = none;
  parent_note_id = none;
  note_order = pos 0;
}

unfoldable pub remove_note : (note_id : ℕ) → User → Tables → Reply Tables
unfolding any_document detach_children
remove_note note_id user t = own_note note_id user t >>= λ doc. reply (
    with_documents (write_document doc.id cleared (detach_children note_id user t t.db.documents))
      t)

-- A document in the trash is not found; one that is no note is deleted too.
unfoldable pub delete_note_with_file : (now note_id : ℕ) → User → Tables → Reply Tables
unfolding any_document detach_children
delete_note_with_file now note_id user t =
    found (any_document note_id t.db.documents) 404 >>= λ doc.
    require (is_none doc.deleted_at) 404
    >> (require_access doc user t
        >> reply (
            with_documents
              (write_document doc.id (λ d. record d { deleted_at = some now })
                (detach_children note_id user t t.db.documents))
              t))

-- A `parent_note_id` is `none` where it is left out, and `some none` where it is "".
pub record NoteMove : Type 0 where
  pub parent_note_id : Option (Option ℕ)
  pub note_order : Option ℤ
  pub position : Option ℤ

abbrev pub parent_note : Option Document → Option ℕ
parent_note none = none
parent_note (some d) = d.parent_note_id

-- "Check for circular: walk up the tree", with fuel; `none` means that the fuel ran out, as in a loop
-- of parents that the `while` would not leave.
unfoldable pub is_above :
    (fuel : ℕ) → List Document → (note_id : ℕ) (check_id : Option ℕ) → Option Bool
unfolding any_document
is_above zero docs note_id check_id = none
is_above (suc fuel) docs note_id none = some false
is_above (suc fuel) docs note_id (some check_id) =
    let rest = is_above fuel docs note_id (parent_note (any_document check_id docs)) in
    if check_id == note_id then some true else rest

-- The part on the parent: the new one. The outer `none` means that fuel ran out.
abbrev pub check_above :
    ℕ → List Document → (note_id parent_id : ℕ) → Document → Option (Reply (Option ℕ))
check_above fuel docs note_id parent_id parent =
    continue_with (is_above fuel docs note_id parent.parent_note_id)
      (λ above. some (require (not above) 400 >> reply (some parent_id)))

abbrev pub check_parent :
    ℕ → List Document → (note_id parent_id : ℕ) → Reply Document → Option (Reply (Option ℕ))
check_parent fuel docs note_id parent_id (http_error status) = some (http_error status)
check_parent fuel docs note_id parent_id (reply parent) =
    check_above fuel docs note_id parent_id parent

unfoldable pub new_parent : Option (Option ℕ) → Document → User → Tables → Option (Reply (Option ℕ))
unfolding is_above readable_parent
new_parent none doc user t = some (reply doc.parent_note_id)
new_parent (some none) doc user t = some (reply none)
new_parent (some (some parent_id)) doc user t =
    let checked =
      check_parent (length t.db.documents + 1) t.db.documents doc.id parent_id
        (readable_parent parent_id user t) in
    if parent_id == doc.id then some (http_error 400) else checked

-- `max(0, min(position, n))`
abbrev pub clamp : ℤ → ℕ → ℕ
clamp (pos position) n = min position n
clamp (negsuc position) n = 0

abbrev pub parent_hidden : List ℕ → Document → Bool
parent_hidden visible d = not (in_values d.parent_note_id visible)

-- The siblings under the parent that the user sees, or at the top level.
abbrev pub siblings_of : (visible : List ℕ) → Option ℕ → List Document → List Document
siblings_of visible none readable = select (parent_hidden visible) readable
siblings_of visible (some parent_id) readable =
    if contains visible parent_id
    then select (λ d. some_eq d.parent_note_id parent_id) readable
    else select (parent_hidden visible) readable

abbrev pub item_of : List ℕ → Document → Item
item_of writable_ids d = (contains writable_ids d.id, d.note_order)

-- `for sib, order in zip(siblings, orders): sib.note_order = order`
unfoldable pub set_orders : List Document → List ℤ → List Document → List Document
set_orders [] orders docs = docs
set_orders (sib ∷ siblings) [] docs = docs
set_orders (sib ∷ siblings) (order ∷ orders) docs =
    set_orders siblings orders (write_document sib.id (λ d. record d { note_order = order }) docs)

-- The order of the titles is the database's.
module _ (title_lt : Text → Text → Bool) where
  abbrev pub sorts_before : Document → Document → Bool
  sorts_before a b =
      ltb_ℤ a.note_order b.note_order
      || (not (ltb_ℤ b.note_order a.note_order) && title_lt a.title b.title)

  -- `ORDER BY note_order, title`
  unfoldable pub insert_note : Document → List Document → List Document
  insert_note d [] = d ∷ []
  insert_note d (x ∷ docs) =
      let rest = insert_note d docs in if sorts_before x d then x ∷ rest else d ∷ x ∷ docs

  unfoldable pub ordered : List Document → List Document
  unfolding insert_note
  ordered [] = []
  ordered (d ∷ docs) = insert_note d (ordered docs)

  unfoldable pub readable_notes : User → Tables → List Document
  unfolding ordered
  readable_notes user t =
      select (λ d. may_read d user t)
        (ordered (
          select
            (λ d.
              live_note d
              && build_visibility_filter user (get_user_group_ids t.db.members user.id) d)
            t.db.documents))

  -- The siblings in the wanted sequence.
  abbrev pub wanted_siblings : (position : ℤ) → Document → User → Tables → List Document
  wanted_siblings position doc user t =
      let readable = readable_notes user t in
      let siblings =
        select (λ d. not (d.id == doc.id))
          (siblings_of (map (λ d. d.id) readable) doc.parent_note_id readable) in
      let n = clamp position (length siblings) in take n siblings ++ doc ∷ drop n siblings

  abbrev pub place_note : List Document → Document → User → Tables → Reply Tables
  place_note siblings doc user t =
      found (place_orders (map (item_of (doc.id ∷ writable user t siblings)) siblings)) 409
      >>= λ orders. reply (with_documents (set_orders siblings orders t.db.documents) t)

  abbrev pub set_order : Option ℤ → Document → Tables → Tables
  set_order none doc t = t
  set_order (some order) doc t =
      with_documents (write_document doc.id (λ d. record d { note_order = order }) t.db.documents) t

  -- The part on the order, of a note that has its new parent.
  unfoldable pub order_note : NoteMove → Document → User → Tables → Reply Tables
  unfolding readable_notes set_orders
  order_note body doc user t = elim body.position [
    | none ↦ reply (set_order body.note_order doc t)
    | some position ↦ place_note (wanted_siblings position doc user t) doc user t
  ]

  abbrev pub under_parent : NoteMove → Document → User → Tables → Reply (Option ℕ) → Reply Tables
  under_parent body doc user t (http_error status) = http_error status
  under_parent body doc user t (reply parent_id) =
      order_note body (record doc { parent_note_id = parent_id }) user
        (with_documents
          (write_document doc.id (λ d. record d { parent_note_id = parent_id }) t.db.documents) t)

  abbrev pub move_found : NoteMove → User → Tables → Reply Document → Option (Reply Tables)
  move_found body user t (http_error status) = some (http_error status)
  move_found body user t (reply doc) =
      continue_with (new_parent body.parent_note_id doc user t)
        (λ parent. some (under_parent body doc user t parent))

  -- The outer `none` means that fuel ran out.
  unfoldable pub move_note : (note_id : ℕ) → NoteMove → User → Tables → Option (Reply Tables)
  unfolding any_document new_parent order_note
  move_note note_id body user t = move_found body user t (own_note note_id user t)
