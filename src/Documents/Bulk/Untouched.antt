-- ===== src/Documents/Bulk/Untouched.antt =====
-- The documents that `bulk_action` of backend/app/routers/documents.py leaves as they are.
use local_ai_search.Prelude.{
  ℕ, ◌≡◌, refl, ◌∙◌, ap, true, false, not, ◌&&◌, List, Text, arith, ◌==◌, is_none, select, any,
  contains, All-select, All-map, All-both, In, UniqueBy, Bool-cases, inl, inr,
}
use mathlib.Core.Path.{subst}
use local_ai_search.Models.{User, Document, DocumentTag}
use local_ai_search.Session.{reply, required, found_row, reply-injective}
use local_ai_search.Documents.{Tables, may_write, owns_document, with_documents, trashed_at, queued}
use local_ai_search.Documents.Access.{owns-may_write, contains-others, select-select, any-none}
use local_ai_search.Documents.Bulk.{
  BulkAction, BulkActionRequest, ids_of, write_each, audit_each, bulk_delete, replaced_docs,
  bulk_move, tag, with_tags, is_tag_of, bulk_add_tags, bulk_remove_tags, bulk_set_tags, set_each,
  run_action, bulk_action, parsed, is_empty, same_tag, some_tags,
}
use local_ai_search.Documents.Bulk.Selected.{
  is_tag, Untouched, Passing, accessible_docs-Passing, write_each-In, audit_each-rows,
  append-new_tags, is_tag_of-other, not-true, replaced-In,
}

module _ (user : User) (t : Tables) (d : Document) (u : UniqueBy (λ x. x.id) t.db.documents)
    (there : In d t.db.documents) (closed : may_write d user t ≡ false) where
  abbrev Allowed : List Document → Type 0
  Allowed = Passing (λ x. may_write x user t) t.db.documents

  Allowed-miss : (sel : List Document) → Allowed sel → contains (ids_of sel) d.id ≡ false
  Allowed-miss sel h =
      contains-others (λ x. may_write x user t) t.db.documents sel d u there closed h

  write_each-Untouched :
      (sel : List Document) (write : Document → Document)
      → Allowed sel
      → Untouched d t (with_documents (write_each sel write t.db.documents) t)
  write_each-Untouched sel write h =
      (write_each-In sel write t.db.documents d (Allowed-miss sel h) there, refl)

  audit_each-Untouched :
      (action : Text) (sel : List Document) (t' : Tables)
      → Untouched d t t'
      → Untouched d t (audit_each user action sel t')
  audit_each-Untouched action sel t' h =
      let (rows, tags) = audit_each-rows user action sel t' in rw (rows, tags) h

  bulk_delete-Untouched :
      (now : ℕ) (sel : List Document) → Allowed sel → Untouched d t (bulk_delete now sel user t).1
  unfolding bulk_delete
  bulk_delete-Untouched now sel h =
      audit_each-Untouched _ (select (λ x. is_none x.deleted_at) sel) _
        (write_each-Untouched _ (trashed_at now) (All-select _ (λ x. is_none x.deleted_at) sel h))

  -- The documents that the move throws away pass the test on writing too.
  replaced-Allowed :
      (body : BulkActionRequest) (sel : List Document)
      → not (any (λ x. not (may_write x user t)) (replaced_docs body sel t.db.documents)) ≡ true
      → Allowed (replaced_docs body sel t.db.documents)
  replaced-Allowed body sel e =
      All-both (λ x. In x t.db.documents) (λ x. not (may_write x user t) ≡ false) _
        (replaced_docs body sel t.db.documents) (λ x m w. (m, not-true (may_write x user t) w))
        (replaced-In body sel t.db.documents) (any-none _ _ e)

  bulk_move-Untouched :
      (now : ℕ) (body : BulkActionRequest) (sel : List Document) {n : ℕ} {t' : Tables}
      → Allowed sel
      → bulk_move now body sel user t ≡ reply (n, t')
      → Untouched d t t'
  unfolding bulk_move
  bulk_move-Untouched now body sel {n} {t'} h e =
      let (_, e1) = required _ 403 _ e in
      let (writable, e2) = required _ 403 _ e1 in
      let (_, e3) = required _ 500 _ e2 in
      subst (λ (r : ℕ × Tables). Untouched d t r.1) (reply-injective _ (n, t') e3)
        (
          write_each-In sel _ _ d (Allowed-miss sel h) (
              write_each-In _ (trashed_at now) t.db.documents d
                (Allowed-miss _ (replaced-Allowed body sel writable)) there),
          refl,
        )

  with_tags-Untouched :
      (tags : List DocumentTag) (sel : List Document) {n : ℕ} {t' : Tables}
      → select (is_tag d.id) tags ≡ select (is_tag d.id) t.tags
      → with_tags tags sel t ≡ reply (n, t')
      → Untouched d t t'
  with_tags-Untouched tags sel {n} {t'} same e =
      let (_, e1) = required _ 500 _ e in
      subst (λ (r : ℕ × Tables). Untouched d t r.1) (reply-injective _ (n, t') e1) (there, same)

  set_tags-Untouched :
      (tag_ids : List ℕ) (sel : List Document) {n : ℕ} {t' : Tables}
      → Allowed sel
      → bulk_set_tags tag_ids sel t ≡ reply (n, t')
      → Untouched d t t'
  unfolding bulk_set_tags
  set_tags-Untouched tag_ids sel h e =
      let miss = Allowed-miss sel h in
      with_tags-Untouched _ sel
        (append-new_tags (λ doc_id tag_id. true) sel tag_ids d.id _ miss
          ∙ select-select (is_tag d.id) (λ g. not (is_tag_of sel g)) t.tags
              (λ g p. ap not (is_tag_of-other sel d.id g miss p)))
        e

  remove_tags-Untouched :
      (tag_ids : List ℕ) (sel : List Document) {n : ℕ} {t' : Tables}
      → Allowed sel
      → bulk_remove_tags tag_ids sel t ≡ reply (n, t')
      → Untouched d t t'
  unfolding bulk_remove_tags
  remove_tags-Untouched tag_ids sel {n} {t'} h e =
      let miss = Allowed-miss sel h in
      subst (λ (r : ℕ × Tables). Untouched d t r.1) (reply-injective _ (n, t') e)
        (
          there,
          select-select (is_tag d.id) (λ g. not (is_tag_of sel g && contains tag_ids g.tag_id))
              t.tags (λ g p. rw (is_tag_of-other sel d.id g miss p)),
        )

  set_each-Untouched :
      (write : Document → Document) (sel : List Document) {n : ℕ} {t' : Tables}
      → Allowed sel
      → set_each write sel t ≡ reply (n, t')
      → Untouched d t t'
  set_each-Untouched write sel {n} {t'} h e =
      subst (λ (r : ℕ × Tables). Untouched d t r.1) (reply-injective _ (n, t') e)
        (write_each-Untouched sel write h)

  add_tags-Untouched :
      (tag_ids : List ℕ) (sel : List Document) {n : ℕ} {t' : Tables}
      → Allowed sel
      → bulk_add_tags tag_ids sel t ≡ reply (n, t')
      → Untouched d t t'
  unfolding bulk_add_tags
  add_tags-Untouched tag_ids sel h e =
      with_tags-Untouched _ sel
        (append-new_tags (λ doc_id tag_id. not (any (same_tag (tag doc_id tag_id)) t.tags)) sel
          tag_ids d.id t.tags (Allowed-miss sel h))
        e

  run_action-Untouched :
      (now : ℕ) (body : BulkActionRequest) (writable owned : List Document) (action : BulkAction)
      {n : ℕ} {t' : Tables}
      → Allowed writable
      → Allowed owned
      → run_action now body writable owned user t action ≡ reply (n, t')
      → Untouched d t t'
  unfolding run_action
  run_action-Untouched now body writable owned BulkAction.delete {n} {t'} h g e =
      subst (λ (r : ℕ × Tables). Untouched d t r.1) (reply-injective _ (n, t') e)
        (bulk_delete-Untouched now writable h)
  run_action-Untouched now body writable owned BulkAction.reindex {n} {t'} h g e =
      subst (λ (r : ℕ × Tables). Untouched d t r.1) (reply-injective _ (n, t') e)
        (write_each-Untouched writable queued h)
  run_action-Untouched now body writable owned BulkAction.set_permissions h g e =
      set_each-Untouched _ owned g e
  run_action-Untouched now body writable owned BulkAction.move_to_folder h g e =
      bulk_move-Untouched now body writable h e
  run_action-Untouched now body writable owned BulkAction.add_tags h g e =
      let (tag_ids, _, e1) = found_row (some_tags body.tag_ids) 400 _ e in
      add_tags-Untouched tag_ids writable h e1
  run_action-Untouched now body writable owned BulkAction.remove_tags h g e =
      let (tag_ids, _, e1) = found_row (some_tags body.tag_ids) 400 _ e in
      remove_tags-Untouched tag_ids writable h e1
  run_action-Untouched now body writable owned BulkAction.set_tags h g e =
      let (tag_ids, _, e1) = found_row body.tag_ids 400 _ e in
      set_tags-Untouched tag_ids writable h e1
  run_action-Untouched now body writable owned BulkAction.set_searchable h g e =
      let (b, _, e1) = found_row body.searchable 400 _ e in set_each-Untouched _ writable h e1
  run_action-Untouched now body writable owned BulkAction.set_ai_knowledge h g e =
      let (b, _, e1) = found_row body.ai_knowledge 400 _ e in set_each-Untouched _ writable h e1
  run_action-Untouched now body writable owned BulkAction.unknown h g e = absurd (ground arith)

owned-Passing :
    (user : User) (t : Tables) (docs sel : List Document)
    → Passing (owns_document user) docs sel
    → Passing (λ x. may_write x user t) docs sel
owned-Passing user t docs sel = All-map _ _ sel (λ x h. (h.0, owns-may_write x user t h.1))

-- Whatever the action and the ids of a bulk request that is answered, a document that the user may not
-- write is left as it is: its row is still in the table, unchanged, and it has the tags that it had.
-- The documents that a move overwrites are covered too. The ids of the table are different.
pub bulk_action-untouched :
    (now : ℕ) (body : BulkActionRequest) (user : User) (t t' : Tables) (n : ℕ) (d : Document)
    → bulk_action now body user t ≡ reply (n, t')
    → UniqueBy (λ x. x.id) t.db.documents
    → In d t.db.documents
    → may_write d user t ≡ false
    → In d t'.db.documents
      × (select (λ g. g.document_id == d.id) t'.tags ≡ select (λ g. g.document_id == d.id) t.tags)
unfolding bulk_action
bulk_action-untouched now body user t t' n d e u there closed =
    elim (Bool-cases (is_empty (parsed body.ids))) [
      | inl p ↦
          subst (λ (r : ℕ × Tables). Untouched d t r.1) (reply-injective (0, t) (n, t') (rw p at e))
            (there, refl)
      | inr p ↦
          run_action-Untouched user t d u there closed now body _ _ body.action
            (accessible_docs-Passing (λ x. may_write x user t) (parsed body.ids) t.db.documents)
            (owned-Passing user t t.db.documents _
              (accessible_docs-Passing (owns_document user) (parsed body.ids) t.db.documents))
            (rw p at e)
    ]
