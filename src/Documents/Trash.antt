-- ===== src/Documents/Trash.antt =====
-- The trash of backend/app/routers/documents.py: `restore_from_trash`, `purge_from_trash` and
-- `empty_trash`.
pub mod Purge
pub mod Keeps
pub mod RoundTrip
use local_ai_search.Prelude.{
  ℕ, ◌+◌, Bool, true, false, not, ◌&&◌, Option, none, some, List, [], ◌∷◌, ◌++◌, Text, codes,
  text_eq, starts_with, ◌==◌, some_eq, is_some, if◌then◌else◌, select, find?, update_where,
}
use local_ai_search.Models.{User, File, Document, DocumentTag, Db}
use local_ai_search.Versioning.{Store, delete_version_files}
use local_ai_search.Documents.{
  UserDocumentAccess, Tables, with_documents, audited, write_document, owns_document,
}

-- `Document.id == doc_id, Document.deleted_at.is_not(None)`
abbrev pub in_trash : ℕ → Document → Bool
in_trash doc_id d = (d.id == doc_id) && is_some d.deleted_at

abbrev pub trash_document : ℕ → List Document → Option Document
trash_document doc_id = find? (in_trash doc_id)

-- The `continue`s of the loops: a document that is not in the trash, or of somebody else, is passed over.
abbrev pub on_own : User → (Document → Tables → Tables) → Option Document → Tables → Option Tables
on_own user act none t = none
on_own user act (some doc) t = if owns_document user doc then some (act doc t) else none

abbrev pub counted : ℕ × Tables → Option Tables → ℕ × Tables
counted (n, t) none = (n, t)
counted (n, t) (some t') = (n + 1, t')

-- The loop over the ids of a request, where `none` is a text that is no UUID.
unfoldable pub for_ids : (ℕ → Tables → Option Tables) → List (Option ℕ) → ℕ × Tables → ℕ × Tables
for_ids act [] s = s
for_ids act (none ∷ ids) s = for_ids act ids s
for_ids act (some id ∷ ids) (n, t) = for_ids act ids (counted (n, t) (act id t))

abbrev pub untrash : User → Document → Tables → Tables
untrash user doc t =
    audited user (codes "document.restore") doc.id (
      with_documents (write_document doc.id (λ d. record d { deleted_at = none }) t.db.documents) t)

unfoldable pub restore_one : User → ℕ → Tables → Option Tables
restore_one user doc_id t = on_own user (untrash user) (trash_document doc_id t.db.documents) t

-- The number of documents that came back, and the tables.
unfoldable pub restore_from_trash : List (Option ℕ) → User → Tables → ℕ × Tables
unfolding for_ids restore_one
restore_from_trash ids user t = for_ids (restore_one user) ids (0, t)

-- `Path(f.storage_path).unlink(missing_ok=True)` of each file
abbrev pub unlink : Text → (Text → Option Text) → Text → Option Text
unlink path disk p = if text_eq p path then none else disk p

unfoldable pub unlink_all : List File → (Text → Option Text) → Text → Option Text
unlink_all [] disk = disk
unlink_all (f ∷ files) disk = unlink_all files (unlink f.storage_path disk)

-- `db.delete(doc)`: its tags, chunks and files go by the cascades of the session, its versions, favorites
-- and accesses by ON DELETE CASCADE, and its notes lose their parent by ON DELETE SET NULL.
unfoldable pub delete_rows : (doc_id : ℕ) → Tables → Tables
delete_rows doc_id t = record t {
  db = record t.db {
    documents =
        update_where (λ d. some_eq d.parent_note_id doc_id)
          (λ d. record d { parent_note_id = none })
          (select (λ d. not (d.id == doc_id)) t.db.documents);
    favorites = select (λ f. not (f.document_id == doc_id)) t.db.favorites;
  };
  store = record t.store {
    versions = select (λ v. not (v.document_id == doc_id)) t.store.versions;
    files = select (λ f. not (f.document_id == doc_id)) t.store.files;
    chunks = select (λ c. not (c.document_id == doc_id)) t.store.chunks;
  };
  tags = select (λ g. not (g.document_id == doc_id)) t.tags;
  accesses = select (λ a. not (a.document_id == doc_id)) t.accesses;
}

-- The storage root, the directory of the previews, and the text of a UUID
module _ (storage_root preview_dir : Text) (uuid_text : ℕ → Text) where
  unfoldable pub delete_preview_images : (doc_id : ℕ) → (Text → Option Text) → Text → Option Text
  delete_preview_images doc_id disk path =
      if starts_with path (preview_dir ++ (codes "/" ++ (uuid_text doc_id ++ codes "/")))
      then none
      else disk path

  abbrev pub delete_files : (doc_id : ℕ) → Tables → Tables
  delete_files doc_id t = record t {
    store = record t.store {
      disk = delete_version_files storage_root uuid_text doc_id (
          delete_preview_images doc_id
            (unlink_all (select (λ f. f.document_id == doc_id) t.store.files) t.store.disk));
    };
  }

  unfoldable pub purge : User → Document → Tables → Tables
  unfolding delete_rows
  purge user doc t =
      delete_rows doc.id (audited user (codes "document.purge") doc.id (delete_files doc.id t))

  unfoldable pub purge_one : User → ℕ → Tables → Option Tables
  unfolding purge
  purge_one user doc_id t = on_own user (purge user) (trash_document doc_id t.db.documents) t

  -- The number of documents that are gone, and the tables.
  unfoldable pub purge_from_trash : List (Option ℕ) → User → Tables → ℕ × Tables
  unfolding for_ids purge_one
  purge_from_trash ids user t = for_ids (purge_one user) ids (0, t)

  unfoldable pub purge_each : User → List Document → ℕ × Tables → ℕ × Tables
  unfolding purge
  purge_each user [] s = s
  purge_each user (doc ∷ docs) (n, t) = purge_each user docs (n + 1, purge user doc t)

  unfoldable pub empty_trash : User → Tables → ℕ × Tables
  unfolding purge_each
  empty_trash user t =
      purge_each user (select (λ d. is_some d.deleted_at && owns_document user d) t.db.documents)
        (0, t)
