-- ===== src/Documents/Bulk.antt =====
-- `bulk_action` of backend/app/routers/documents.py: one action on many documents.
pub mod Selected
pub mod Untouched
use local_ai_search.Prelude.{
  ℕ, Bool, true, false, not, ◌&&◌, ◌||◌, Option, none, some, List, [], ◌∷◌, ◌++◌, Text, codes, map,
  text_eq, ◌==◌, some_eq, option_eq, is_none, is_some, if◌then◌else◌, length, select, find?, any,
  update_where, contains,
}
use local_ai_search.Models.{User, Folder, Document, DocumentTag, Db}
use local_ai_search.Session.{Reply, http_error, reply, ◌>>=◌, ◌>>◌, require, found}
use local_ai_search.Folders.{folder_of}
use local_ai_search.Folders.Update.{doc_perms, may_write_target}
use local_ai_search.Documents.{
  Tables, UnixPermissions, with_documents, audited, any_document, may_write, owns_document,
  trashed_at, with_permissions, queued, with_jobs, reindex_job,
}

-- `body.action`; every other text is `unknown`.
pub data BulkAction : Type 0 where
  delete reindex set_permissions move_to_folder add_tags remove_tags set_tags set_searchable
        set_ai_knowledge unknown :
      BulkAction

-- An id is `none` where it is no UUID. `permissions` has the five fields of that action, and a
-- `folder_id` that is left out and "" are one.
pub record BulkActionRequest : Type 0 where
  pub ids : List (Option ℕ)
  pub action : BulkAction
  pub permissions : UnixPermissions
  pub folder_id : Option ℕ
  pub overwrite : Bool
  pub tag_ids : Option (List ℕ)
  pub searchable : Option Bool
  pub ai_knowledge : Option Bool

-- `not xs`
abbrev pub is_empty {ℓ} : {A : Type ℓ} → List A → Bool
is_empty [] = true
is_empty (x ∷ xs) = false

-- `doc_uuids`
unfoldable pub parsed : List (Option ℕ) → List ℕ
parsed [] = []
parsed (none ∷ ids) = parsed ids
parsed (some id ∷ ids) = id ∷ parsed ids

abbrev pub keep_if : (Document → Bool) → Option Document → List Document → List Document
keep_if may none docs = docs
keep_if may (some doc) docs = if may doc then doc ∷ docs else docs

-- `_accessible_docs`, in the order of the ids; `may` is the test that `need_owner_only` chooses.
unfoldable pub accessible_docs : (may : Document → Bool) → List ℕ → List Document → List Document
unfolding any_document
accessible_docs may [] documents = []
accessible_docs may (id ∷ ids) documents =
    keep_if may (any_document id documents) (accessible_docs may ids documents)

abbrev pub ids_of : List Document → List ℕ
ids_of = map (λ d. d.id)

-- A loop that writes to the attributes of each of the documents.
unfoldable pub write_each : List Document → (Document → Document) → List Document → List Document
write_each docs write = update_where (λ d. contains (ids_of docs) d.id) write

unfoldable pub audit_each : User → Text → List Document → Tables → Tables
audit_each user action [] t = t
audit_each user action (doc ∷ docs) t = audit_each user action docs (audited user action doc.id t)

unfoldable pub bulk_delete : (now : ℕ) → List Document → User → Tables → ℕ × Tables
unfolding write_each audit_each
bulk_delete now docs user t =
    let live_docs = select (λ d. is_none d.deleted_at) docs in
    (
      length live_docs,
      audit_each user (codes "document.delete") live_docs
          (with_documents (write_each live_docs (trashed_at now) t.db.documents) t),
    )

-- `existing_q`: live documents of the folder with one of the titles, less those that move.
abbrev pub is_replaced : (folder_id : Option ℕ) → (docs : List Document) → Document → Bool
is_replaced folder_id docs d =
    any (λ m. text_eq m.title d.title) docs
    && (is_none d.deleted_at
        && (option_eq d.folder_id folder_id && not (contains (ids_of docs) d.id)))

abbrev pub replaced_docs : BulkActionRequest → List Document → List Document → List Document
replaced_docs body docs documents =
    if body.overwrite then select (is_replaced body.folder_id docs) documents else []

abbrev pub with_folder_perms : Option Folder → Document → Document
with_folder_perms none d = d
with_folder_perms (some folder) d = doc_perms folder d

abbrev pub target_of : Option ℕ → Db → Option Folder
target_of none db = none
target_of (some folder_id) db = folder_of folder_id db.folders

-- A folder that is not there violates the foreign key when the rows are flushed.
unfoldable pub bulk_move :
    (now : ℕ) → BulkActionRequest → List Document → User → Tables → Reply (ℕ × Tables)
unfolding write_each
bulk_move now body docs user t =
    let target = target_of body.folder_id t.db in
    let replaced = replaced_docs body docs t.db.documents in
    require (may_write_target target user t.db) 403
    >> (require (not (any (λ d. not (may_write d user t)) replaced)) 403
        >> (require (is_none body.folder_id || (is_some target || is_empty docs)) 500
            >> reply (
              length docs,
              with_documents
                  (write_each docs
                    (λ d. with_folder_perms target (record d { folder_id = body.folder_id }))
                    (write_each replaced (trashed_at now) t.db.documents))
                  t,
            )))

abbrev pub tag : ℕ → ℕ → DocumentTag
tag document_id tag_id = record { document_id = document_id; tag_id = tag_id }

abbrev pub same_tag : DocumentTag → DocumentTag → Bool
same_tag a b = (a.document_id == b.document_id) && (a.tag_id == b.tag_id)

-- The unique constraint on the document and the tag.
unfoldable pub tags_differ : List DocumentTag → Bool
tags_differ [] = true
tags_differ (a ∷ tags) = not (any (same_tag a) tags) && tags_differ tags

unfoldable pub new_tags : (ℕ → ℕ → Bool) → List Document → List ℕ → List DocumentTag
new_tags wanted [] tag_ids = []
new_tags wanted (doc ∷ docs) tag_ids =
    map (tag doc.id) (select (wanted doc.id) tag_ids) ++ new_tags wanted docs tag_ids

abbrev pub with_tags : List DocumentTag → List Document → Tables → Reply (ℕ × Tables)
with_tags tags docs t =
    require (tags_differ tags) 500 >> reply (length docs, record t { tags = tags })

unfoldable pub bulk_add_tags : List ℕ → List Document → Tables → Reply (ℕ × Tables)
unfolding new_tags tags_differ
bulk_add_tags tag_ids docs t =
    with_tags
      (t.tags
        ++ new_tags (λ doc_id tag_id. not (any (same_tag (tag doc_id tag_id)) t.tags)) docs tag_ids)
      docs t

abbrev pub is_tag_of : List Document → DocumentTag → Bool
is_tag_of docs g = contains (ids_of docs) g.document_id

unfoldable pub bulk_remove_tags : List ℕ → List Document → Tables → Reply (ℕ × Tables)
bulk_remove_tags tag_ids docs t = reply (
  length docs,
  record t { tags = select (λ g. not (is_tag_of docs g && contains tag_ids g.tag_id)) t.tags },
)

unfoldable pub bulk_set_tags : List ℕ → List Document → Tables → Reply (ℕ × Tables)
unfolding new_tags tags_differ
bulk_set_tags tag_ids docs t =
    with_tags
      (select (λ g. not (is_tag_of docs g)) t.tags ++ new_tags (λ doc_id tag_id. true) docs tag_ids)
      docs t

-- A loop that sets attributes, and what it returns.
abbrev pub set_each : (Document → Document) → List Document → Tables → Reply (ℕ × Tables)
set_each write docs t = reply (length docs, with_documents (write_each docs write t.db.documents) t)

-- `if not body.tag_ids`
abbrev pub some_tags : Option (List ℕ) → Option (List ℕ)
some_tags none = none
some_tags (some []) = none
some_tags (some (id ∷ ids)) = some (id ∷ ids)

-- The branches behind `if not doc_uuids`. `writable` and `owned` are what `_accessible_docs` gives.
unfoldable pub run_action :
    (now : ℕ)
    → BulkActionRequest
    → (writable owned : List Document) → User
    → Tables
    → BulkAction
    → Reply (ℕ × Tables)
unfolding bulk_delete bulk_move bulk_add_tags bulk_remove_tags bulk_set_tags write_each
run_action now body writable owned user t BulkAction.delete =
    reply (bulk_delete now writable user t)
run_action now body writable owned user t BulkAction.reindex = reply (
  length writable,
  with_jobs (map reindex_job writable)
      (with_documents (write_each writable queued t.db.documents) t),
)
run_action now body writable owned user t BulkAction.set_permissions =
    set_each (with_permissions body.permissions) owned t
run_action now body writable owned user t BulkAction.move_to_folder =
    bulk_move now body writable user t
run_action now body writable owned user t BulkAction.add_tags =
    found (some_tags body.tag_ids) 400 >>= λ tag_ids. bulk_add_tags tag_ids writable t
run_action now body writable owned user t BulkAction.remove_tags =
    found (some_tags body.tag_ids) 400 >>= λ tag_ids. bulk_remove_tags tag_ids writable t
run_action now body writable owned user t BulkAction.set_tags =
    found body.tag_ids 400 >>= λ tag_ids. bulk_set_tags tag_ids writable t
run_action now body writable owned user t BulkAction.set_searchable =
    found body.searchable 400 >>= λ b. set_each (λ d. record d { searchable = b }) writable t
run_action now body writable owned user t BulkAction.set_ai_knowledge =
    found body.ai_knowledge 400 >>= λ b. set_each (λ d. record d { ai_knowledge = b }) writable t
run_action now body writable owned user t BulkAction.unknown = http_error 400

-- The number that was processed, and the tables.
unfoldable pub bulk_action : (now : ℕ) → BulkActionRequest → User → Tables → Reply (ℕ × Tables)
unfolding run_action parsed accessible_docs
bulk_action now body user t =
    let ids = parsed body.ids in
    if is_empty ids
    then reply (0, t)
    else run_action now body (accessible_docs (λ d. may_write d user t) ids t.db.documents)
        (accessible_docs (owns_document user) ids t.db.documents) user t body.action
