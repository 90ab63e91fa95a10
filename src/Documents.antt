-- ===== src/Documents.antt =====
-- backend/app/routers/documents.py: the endpoints that write documents, with `delete_document` and those
-- on permissions, the index and the versions here. Responses, mails, webhooks and the notes to the file
-- server are left out: they write no row.
pub mod Access
pub mod Trash
pub mod Bulk
pub mod Edit
mod Tests
use local_ai_search.Prelude.{
  ℕ, ◌+◌, ◌≡◌, Bool, true, false, not, ◌&&◌, ◌||◌, Option, none, some, List, [], ◌∷◌, ◌++◌, Text,
  codes, ◌==◌, some_eq, is_none, is_some, if◌then◌else◌, select, find?, update_where, ==_iff,
  find?-test,
}
use local_ai_search.Models.{User, Document, DocumentTag, Db}
use local_ai_search.Session.{Reply, http_error, reply, ◌>>=◌, ◌>>◌, require, found}
use local_ai_search.Permissions.{is_admin, can_access_document}
use local_ai_search.Groups.{logged}
use local_ai_search.Folders.Update.{or_old}
use local_ai_search.Versioning.{Store, ProcessingJob, restore_version}

pub record UserDocumentAccess : Type 0 where
  pub user_id : ℕ
  pub document_id : ℕ
  pub last_accessed_at : ℕ

-- The rows and files that the endpoints reach: the tables of the handlers, what the versions reach, the
-- tags of the documents, and when users looked at them.
pub record Tables : Type 0 where
  pub db : Db
  pub store : Store
  pub tags : List DocumentTag
  pub accesses : List UserDocumentAccess

abbrev pub with_documents : List Document → Tables → Tables
with_documents documents t = record t { db = record t.db { documents = documents } }

abbrev pub audited : User → (action : Text) → (target_id : ℕ) → Tables → Tables
audited user action target_id t = record t { db = logged user action target_id t.db }

-- `Document.id == document_id, Document.deleted_at.is_(None)`
abbrev pub live : ℕ → Document → Bool
live document_id d = (d.id == document_id) && is_none d.deleted_at

unfoldable pub live_document : ℕ → List Document → Option Document
live_document document_id = find? (live document_id)

-- `Document.id == document_id`, in the trash or not.
unfoldable pub any_document : ℕ → List Document → Option Document
any_document document_id = find? (λ d. d.id == document_id)

abbrev pub may_write : Document → User → Tables → Bool
may_write doc user t = can_access_document doc user true (some t.db.members)

-- A write to the attributes of the document with the id.
abbrev pub write_document : ℕ → (Document → Document) → List Document → List Document
write_document document_id = update_where (λ d. d.id == document_id)

-- `update(Document).where(parent_note_id == id, is_note).values(parent_note_id=None)`
abbrev pub is_child_note : ℕ → Document → Bool
is_child_note note_id d = some_eq d.parent_note_id note_id && d.is_note

unfoldable pub detach_notes : (note_id : ℕ) → List Document → List Document
detach_notes note_id =
    update_where (is_child_note note_id) (λ d. record d { parent_note_id = none })

abbrev pub trashed_at : (now : ℕ) → Document → Document
trashed_at now d = record d { deleted_at = some now }

-- What the endpoint writes to the table once the document is found and may be written.
unfoldable pub move_to_trash : (now : ℕ) → Document → List Document → List Document
unfolding detach_notes
move_to_trash now doc documents =
    let trashed = write_document doc.id (trashed_at now) documents in
    if doc.is_note then detach_notes doc.id trashed else trashed

unfoldable pub delete_document : (now document_id : ℕ) → User → Tables → Reply Tables
unfolding live_document move_to_trash
delete_document now document_id user t =
    found (live_document document_id t.db.documents) 404 >>= λ doc.
    require (may_write doc user t) 403
    >> reply (
        audited user (codes "document.delete") doc.id
          (with_documents (move_to_trash now doc t.db.documents) t))

-- A field is `none` where the request leaves it out; a `group_id` is `some none` where it is "".
pub record UnixPermissions : Type 0 where
  pub group_id : Option (Option ℕ)
  pub group_read : Option Bool
  pub group_write : Option Bool
  pub others_read : Option Bool
  pub others_write : Option Bool

abbrev pub with_permissions : UnixPermissions → Document → Document
with_permissions body d = record d {
  group_id = or_old body.group_id d.group_id;
  group_read = or_old body.group_read d.group_read;
  group_write = or_old body.group_write d.group_write;
  others_read = or_old body.others_read d.others_read;
  others_write = or_old body.others_write d.others_write;
}

-- `doc.owner_id or doc.created_by_id`
abbrev pub effective_owner : Document → Option ℕ
effective_owner d = elim d.owner_id [ none ↦ d.created_by_id | some owner ↦ some owner ]

unfoldable pub set_document_permissions :
    (document_id : ℕ) → UnixPermissions → User → Tables → Reply Tables
unfolding any_document
set_document_permissions document_id body user t =
    found (any_document document_id t.db.documents) 404 >>= λ doc.
    require (some_eq (effective_owner doc) user.id || is_admin user) 403
    >> reply (with_documents (write_document doc.id (with_permissions body) t.db.documents) t)

-- `x or ""`
abbrev pub or_empty : Option Text → Text
or_empty none = []
or_empty (some s) = s

abbrev pub reindex_job : Document → ProcessingJob
reindex_job doc = record {
  doc_id = doc.id;
  storage_path = or_empty doc.source_path;
  file_type = doc.file_type;
  filename = doc.title;
}

abbrev pub queued : Document → Document
queued d = record d { processing_status = codes "queued" }

abbrev pub with_jobs : List ProcessingJob → Tables → Tables
with_jobs jobs t = record t { store = record t.store { jobs = t.store.jobs ++ jobs } }

unfoldable pub reindex_document : (document_id : ℕ) → User → Tables → Reply Tables
unfolding any_document
reindex_document document_id user t = found (any_document document_id t.db.documents) 404 >>= λ doc.
    require (may_write doc user t) 403
    >> reply (
        with_jobs (reindex_job doc ∷ [])
          (with_documents (write_document doc.id queued t.db.documents) t))

-- "Permission check: owner or admin"
abbrev pub owns_document : User → Document → Bool
owns_document user doc = is_admin user || some_eq doc.owner_id user.id

unfoldable pub restore_document_version :
    (document_id version_number : ℕ) → User → Tables → Reply Tables
unfolding live_document
restore_document_version document_id version_number user t =
    found (live_document document_id t.db.documents) 404 >>= λ doc.
    require (owns_document user doc) 403
    >> (found (restore_version doc version_number t.store) 404 >>= λ (restored, store).
        reply (record (with_documents (write_document doc.id (λ d. restored) t.db.documents) t) {
          store = store;
        }))
