-- ===== src/Documents/Edit.antt =====
-- `update_document` and `_increment_counter` of backend/app/routers/documents.py. The embeddings of the chunks are left out:
-- the service gives one for each chunk, or the chunks are stored without.
pub mod Answered
pub mod Numbers
pub mod Undo
use local_ai_search.Prelude.{
  ℕ, suc, ◌+◌, update_first, utf8_length, map, Bool, not, ◌&&◌, ◌||◌, Option, none, some, List, [],
  ◌∷◌, ◌++◌, Text, codes, text_eq, ◌==◌, is_some, if◌then◌else◌, select, any, update_where,
}
use local_ai_search.Models.{User, File, Document, DocumentTag, Chunk, Db}
use local_ai_search.Session.{Reply, http_error, reply, ◌>>◌, require}
use local_ai_search.Filename.{sanitize_filename, path_suffix}
use local_ai_search.Chunking.{chunk_text}
use local_ai_search.Versioning.{Store, copy_file, create_versions_on_edit, save_new_version}
use local_ai_search.Folders.Update.{or_old, continue_with, may_write_target}
use local_ai_search.Documents.{
  UserDocumentAccess, Tables, UnixPermissions, with_documents, audited, live_document, may_write,
  write_document, with_permissions,
}
use local_ai_search.Documents.Bulk.{is_empty, tag, tags_differ, target_of}

-- The request. A field is `none` where it is left out; a `folder_id` is `some none` where it is "". `permissions` has the five
-- fields of a request for permissions.
pub record DocumentUpdate : Type 0 where
  pub title : Option Text
  pub summary : Option Text
  pub memo : Option Text
  pub content : Option Text
  pub permissions : UnixPermissions
  pub searchable : Option Bool
  pub ai_knowledge : Option Bool
  pub share_prohibited : Option Bool
  pub download_prohibited : Option Bool
  pub folder_id : Option (Option ℕ)
  pub tag_ids : Option (List ℕ)

abbrev is_file_of : ℕ → File → Bool
is_file_of doc_id f = f.document_id == doc_id

-- The title, and the name of the file with it.
unfoldable pub edit_title : Option Text → Document → Store → Document × Store
unfolding path_suffix
edit_title none doc s = (doc, s)
edit_title (some title) doc s = (
  record doc { title = title },
  record s {
    files =
        update_first (is_file_of doc.id)
          (λ f. record f { filename = sanitize_filename (title ++ path_suffix f.filename) })
          s.files;
  },
)

-- ".md files: write back to source file on disk", which `can_write` lets fail.
unfoldable pub write_source : (can_write : Bool) → Text → Document → Store → Store
unfolding utf8_length
write_source can_write content doc s = elim doc.source_path [
  | none ↦ s
  | some path ↦
      if text_eq doc.file_type (codes "md") && (not (is_empty path) && can_write)
      then record s {
        disk = copy_file content path s.disk;
        files =
            update_first (is_file_of doc.id) (λ f. record f { file_size = utf8_length content })
              s.files;
      }
      else s
]

unfoldable pub number_chunks : (doc_id chunk_index : ℕ) → List Text → List Chunk
number_chunks doc_id chunk_index [] = []
number_chunks doc_id chunk_index (content ∷ contents) =
    record { document_id = doc_id; chunk_index = chunk_index; content = content }
    ∷ number_chunks doc_id (suc chunk_index) contents

-- "Re-chunk and re-embed"
abbrev pub with_chunks : (doc_id : ℕ) → List Text → Store → Store
with_chunks doc_id contents s = record s {
  chunks = select (λ c. not (c.document_id == doc_id)) s.chunks ++ number_chunks doc_id 0 contents;
}

abbrev pub edit_fields : DocumentUpdate → Document → Document
edit_fields body doc = record (with_permissions body.permissions doc) {
  searchable = or_old body.searchable doc.searchable;
  ai_knowledge = or_old body.ai_knowledge doc.ai_knowledge;
  share_prohibited = or_old body.share_prohibited doc.share_prohibited;
  download_prohibited = or_old body.download_prohibited doc.download_prohibited;
  folder_id = or_old body.folder_id doc.folder_id;
}

abbrev pub edit_summary : DocumentUpdate → Document → Document
edit_summary body doc = record doc {
  summary = or_old body.summary doc.summary;
  memo = or_old body.memo doc.memo;
}

-- "No write permission on target folder"; a folder that is not there violates the foreign key.
abbrev pub check_folder : Option (Option ℕ) → User → Db → Reply (Unit {0})
check_folder none user db = reply tt
check_folder (some none) user db = reply tt
check_folder (some (some folder_id)) user db =
    require (may_write_target (target_of (some folder_id) db) user db) 403
    >> require (is_some (target_of (some folder_id) db)) 500

abbrev pub replace_tags : ℕ → Option (List ℕ) → List DocumentTag → List DocumentTag
replace_tags doc_id none tags = tags
replace_tags doc_id (some tag_ids) tags =
    select (λ g. not (g.document_id == doc_id)) tags ++ map (tag doc_id) tag_ids

-- `ON CONFLICT DO UPDATE` of the access
abbrev pub touch_access :
    (now user_id doc_id : ℕ) → List UserDocumentAccess → List UserDocumentAccess
touch_access now user_id doc_id accesses =
    let same : UserDocumentAccess → Bool =
      λ a. (a.user_id == user_id) && (a.document_id == doc_id) in
    if any same accesses
    then update_where same (λ a. record a { last_accessed_at = now }) accesses
    else accesses ++ record { user_id = user_id; document_id = doc_id; last_accessed_at = now } ∷ []

-- `_increment_counter` of "edit_count", on the document's row.
abbrev pub count_edit : (now : ℕ) → Document → Document
count_edit now doc = record doc { edit_count = doc.edit_count + 1; last_accessed_at = some now }

-- `if is_content_change`
abbrev pub stamp : (now : ℕ) → DocumentUpdate → User → Document → Document
stamp now body user doc =
    if is_some body.title || (is_some body.summary || (is_some body.memo || is_some body.content))
    then record doc { updated_by_id = some user.id; updated_at = now }
    else doc

-- The storage root, and the text of a UUID
module _ (storage_root : Text) (uuid_text : ℕ → Text) where
  -- The content: the number of the new version if there is one, the document and the store. `none`
  -- means that `chunk_text` ran out of fuel.
  unfoldable pub edit_content :
      (can_write : Bool)
      → Option Text
      → User
      → Document
      → Store
      → Option (Option ℕ × Document × Store)
  unfolding write_source number_chunks
  edit_content can_write none user doc s = some (none, doc, s)
  edit_content can_write (some content) user doc s =
      let (n, s') = create_versions_on_edit storage_root uuid_text doc (some user.id) s in
      let doc' : Document = record doc { content = content } in
      continue_with (chunk_text content 800 100) (λ contents.
        some (some n, doc', with_chunks doc.id contents (write_source can_write content doc' s')))

  abbrev pub save_edit : Option ℕ → User → Document → Store → Document × Store
  save_edit none user doc s = (doc, s)
  save_edit (some n) user doc s =
      save_new_version storage_root uuid_text doc n (some user.id) (some (codes "text_edit")) s

  -- The part behind the content.
  unfoldable pub finish_edit :
      (now : ℕ) → DocumentUpdate → User → Tables → Option ℕ × Document × Store → Reply Tables
  unfolding tags_differ
  finish_edit now body user t (n, doc, s) =
      check_folder body.folder_id user t.db
      >> (require (tags_differ (replace_tags doc.id body.tag_ids t.tags)) 500
          >> (let edited = stamp now body user (count_edit now (edit_fields body doc)) in
              let (saved, s') = save_edit n user edited s in
              reply (
                audited user (codes "document.update") doc.id
                  (record (with_documents (write_document doc.id (λ d. saved) t.db.documents) t) {
                    store = s';
                    tags = replace_tags doc.id body.tag_ids t.tags;
                    accesses = touch_access now user.id doc.id t.accesses;
                  }))))

  -- The reply, and the disk, which no rollback restores.
  abbrev pub edit_document :
      (now : ℕ) (can_write : Bool)
      → DocumentUpdate
      → User
      → Tables
      → Document
      → Option (Reply Tables × (Text → Option Text))
  edit_document now can_write body user t doc =
      let (titled, s) = edit_title body.title doc t.store in
      continue_with (edit_content can_write body.content user (edit_summary body titled) s)
        (λ edited. some (finish_edit now body user t edited, edited.2.disk))

  abbrev pub edit_found :
      (now : ℕ) (can_write : Bool)
      → DocumentUpdate
      → User
      → Tables
      → Option Document
      → Option (Reply Tables × (Text → Option Text))
  edit_found now can_write body user t none = some (http_error 404, t.store.disk)
  edit_found now can_write body user t (some doc) =
      let edited = edit_document now can_write body user t doc in
      if may_write doc user t then edited else some (http_error 403, t.store.disk)

  -- The outer `none` means that fuel ran out.
  unfoldable pub update_document :
      (now document_id : ℕ) (can_write : Bool)
      → DocumentUpdate
      → User
      → Tables
      → Option (Reply Tables × (Text → Option Text))
  unfolding edit_title edit_content finish_edit live_document
  update_document now document_id can_write body user t =
      edit_found now can_write body user t (live_document document_id t.db.documents)
