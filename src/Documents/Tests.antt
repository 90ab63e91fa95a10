-- ===== src/Documents/Tests.antt =====
-- Documents that are edited, thrown away, restored and purged (backend/app/routers/documents.py).
use local_ai_search.Prelude.{
  ℕ, ◌<◌, ◌≡◌, refl, true, false, ◌&&◌, Option, none, some, List, [], ◌∷◌, ◌++◌, Text, codes,
  decimal, pos, arith, ◌==◌, ◌⊎◌, ◌≢◌, All, length, if◌then◌else◌, is_some, map, select, In, inl,
  inr, UniqueBy,
}
use local_ai_search.Models.{User, Document, File, DocumentVersion}
use local_ai_search.Session.{Reply, reply, http_error}
use local_ai_search.Permissions.{can_access_document, is_admin, in_group}
use local_ai_search.Chunking.{chunk_text, chunk_end}
use local_ai_search.Versioning.{
  max_version, save_version, save_new_version, create_versions_on_edit,
}
use local_ai_search.Filename.{sanitize_filename}
use local_ai_search.Versioning.History.{IsNumbered}
use local_ai_search.Documents.{
  Tables, UnixPermissions, live_document, may_write, owns_document, delete_document, write_document,
  restore_document_version, reindex_document,
}
use local_ai_search.Documents.Trash.{restore_from_trash, purge_from_trash, empty_trash}
use local_ai_search.Documents.Trash.Purge.{empty_trash-purge_from_trash}
use local_ai_search.Documents.Trash.Keeps.{purge_from_trash-keeps}
use local_ai_search.Documents.Trash.RoundTrip.{delete_document-restore_from_trash}
use local_ai_search.Documents.Bulk.{BulkAction, BulkActionRequest, bulk_action}
use local_ai_search.Documents.Bulk.Untouched.{bulk_action-untouched}
use local_ai_search.Documents.Edit.{DocumentUpdate, update_document}
use local_ai_search.Documents.Edit.Numbers.{update_document-IsNumbered}
use local_ai_search.Documents.Edit.Undo.{update_document-restore}

abbrev writer : User
writer = record {
  id = 2;
  username = codes "ann";
  hashed_password = codes "$2b$";
  is_active = true;
  can_share = true;
  last_login_at = none;
  unix_uid = none;
  roles = [];
}

abbrev plan : Document
plan = record {
  id = 3;
  title = codes "plan";
  source_path = some (codes "/s/plan.md");
  file_type = codes "md";
  content = codes "old";
  owner_id = some 2;
  folder_id = none;
  group_id = none;
  group_read = false;
  group_write = false;
  others_read = true;
  others_write = false;
  searchable = true;
  ai_knowledge = true;
  share_prohibited = false;
  download_prohibited = false;
  summary = [];
  memo = [];
  processing_status = codes "done";
  created_by_id = some 2;
  updated_by_id = none;
  updated_at = 0;
  deleted_at = none;
  current_version = 1;
  is_note = false;
  note_content = none;
  parent_note_id = none;
  note_order = pos 0;
  edit_count = 0;
  last_accessed_at = none;
}

-- Of somebody else, and in the trash.
abbrev report : Document
report = record plan { id = 4; title = codes "report"; owner_id = some 9 }

abbrev scrap : Document
scrap = record plan { id = 5; title = codes "scrap"; deleted_at = some 1 }

abbrev tables : Tables
tables = record {
  db = record {
    users = writer ∷ [];
    groups = [];
    members = [];
    folders = [];
    documents = plan ∷ report ∷ scrap ∷ [];
    favorites = [];
    audit_logs = [];
  };
  store = record {
    versions = [];
    files =
        record {
          document_id = 3;
          filename = codes "plan.md";
          storage_path = codes "/s/plan.md";
          file_size = 3;
        }
        ∷ [];
    chunks = [];
    jobs = [];
    disk = λ path. none;
  };
  tags = record { document_id = 4; tag_id = 1 } ∷ [];
  accesses = [];
}

tables_unique : UniqueBy (λ (d : Document). d.id) tables.db.documents
tables_unique = ((omega arith, (omega arith, tt)), ((omega arith, tt), (tt, tt)))

live_plan : live_document 3 tables.db.documents ≡ some plan
unfolding live_document
live_plan = refl

owns_plan : owns_document writer plan ≡ true
unfolding is_admin
owns_plan = refl

not_mine : may_write report writer tables ≡ false
unfolding can_access_document is_admin in_group
not_mine = refl

delete_document-restore_from_trash_example :
    (t' : Tables) × (delete_document 7 3 writer tables ≡ reply t')
    × let (n, t'') = restore_from_trash (some 3 ∷ []) writer t' in
      (n ≡ 1) × (t''.db.documents ≡ tables.db.documents)
delete_document-restore_from_trash_example =
    delete_document-restore_from_trash 7 3 writer tables plan tables_unique live_plan owns_plan
      (refl, (refl, (refl, tt)))

empty_trash-purge_from_trash_example :
    let own = select (λ d. is_some d.deleted_at && owns_document writer d) tables.db.documents in
    empty_trash (codes "/s") (codes "/p") decimal writer tables
    ≡ purge_from_trash (codes "/s") (codes "/p") decimal (map (λ d. some d.id) own) writer tables
empty_trash-purge_from_trash_example =
    empty_trash-purge_from_trash (codes "/s") (codes "/p") decimal writer tables tables_unique

purged : (empty_trash (codes "/s") (codes "/p") decimal writer tables).0 ≡ 1
unfolding empty_trash is_admin
purged = refl

purge_from_trash-keeps_example :
    let docs =
      (purge_from_trash
        (codes "/s")
        (codes "/p")
        decimal
        (some 3 ∷ none ∷ some 5 ∷ [])
        writer
        tables).1.db.documents in
    In plan docs
    ⊎ ((k : ℕ) × (plan.parent_note_id ≡ some k)
        × In (some k) (some 3 ∷ none ∷ some 5 ∷ [])
        × In (record plan { parent_note_id = none }) docs
        × All (λ x. x.id ≢ k) docs)
purge_from_trash-keeps_example =
    purge_from_trash-keeps (codes "/s") (codes "/p") decimal writer (some 3 ∷ none ∷ some 5 ∷ [])
      tables plan tables_unique (inl refl) refl

abbrev no_change : UnixPermissions
no_change = record {
  group_id = none;
  group_read = none;
  group_write = none;
  others_read = none;
  others_write = none;
}

-- The request names a document of somebody else too, which is passed over.
abbrev retag : BulkActionRequest
retag = record {
  ids = some 3 ∷ some 4 ∷ [];
  action = BulkAction.set_tags;
  permissions = no_change;
  folder_id = none;
  overwrite = false;
  tag_ids = some (8 ∷ []);
  searchable = none;
  ai_knowledge = none;
}

abbrev retagged : Tables
retagged = record tables {
  tags = record { document_id = 4; tag_id = 1 } ∷ record { document_id = 3; tag_id = 8 } ∷ [];
}

retags : bulk_action 7 retag writer tables ≡ reply (1, retagged)
unfolding bulk_action can_access_document is_admin in_group
retags = refl

bulk_action-untouched_example :
    In report retagged.db.documents
    × (select (λ g. g.document_id == 4) retagged.tags
        ≡ select (λ g. g.document_id == 4) tables.tags)
bulk_action-untouched_example =
    bulk_action-untouched 7 retag writer tables retagged 1 report retags tables_unique
      (inr (inl refl)) not_mine

abbrev edit : DocumentUpdate
edit = record {
  title = some (codes "goal");
  summary = none;
  memo = none;
  content = some (codes "new");
  permissions = no_change;
  searchable = none;
  ai_knowledge = none;
  share_prohibited = none;
  download_prohibited = none;
  folder_id = none;
  tag_ids = some (6 ∷ []);
}

abbrev tables_of : Option (Reply Tables × (Text → Option Text)) → Tables
tables_of none = tables
tables_of (some (http_error status, disk)) = tables
tables_of (some (reply t, disk)) = t

abbrev disk_of : Option (Reply Tables × (Text → Option Text)) → Text → Option Text
disk_of none = λ path. none
disk_of (some (answer, disk)) = disk

abbrev edited : Tables
edited = tables_of (update_document (codes "/s") decimal 7 3 true edit writer tables)

abbrev edited_disk : Text → Option Text
edited_disk = disk_of (update_document (codes "/s") decimal 7 3 true edit writer tables)

edits :
    update_document (codes "/s") decimal 7 3 true edit writer tables
    ≡ some (reply edited, edited_disk)
unfolding update_document can_access_document is_admin chunk_text chunk_end
edits = refl

-- The first edit leaves two versions, and the file has the new name and the new text.
edit_rows :
    (max_version 3 edited.store.versions ≡ 2)
    × (map (λ (f : File). f.filename) edited.store.files ≡ codes "goal.md" ∷ [])
    × (edited_disk (codes "/s/plan.md") ≡ some (codes "new"))
unfolding update_document can_access_document is_admin chunk_text chunk_end max_version
    save_new_version save_version create_versions_on_edit sanitize_filename
edit_rows = (refl, refl, refl)

no_version : max_version 3 tables.store.versions ≡ 0
unfolding max_version
no_version = refl

update_document-IsNumbered_example :
    (doc : Document) × (live_document 3 tables.db.documents ≡ some doc)
    × (may_write doc writer tables ≡ true)
    × (saved : Document) × (edited.db.documents
        ≡ write_document doc.id (λ d. saved) tables.db.documents)
    × (saved.id ≡ doc.id)
    × (saved.content ≡ codes "new")
    × IsNumbered edited.store.versions
    × (added : List DocumentVersion) × (edited.store.versions ≡ tables.store.versions ++ added)
    × (length added ≡ (if max_version doc.id tables.store.versions == 0 then 2 else 1))
    × All (λ v. v.document_id ≡ doc.id) added
    × (max_version doc.id tables.store.versions < saved.current_version)
    × (max_version doc.id edited.store.versions ≡ saved.current_version)
update_document-IsNumbered_example =
    update_document-IsNumbered (codes "/s") decimal 7 3 true edit writer tables edited edited_disk
      (codes "new") edits refl tt

update_document-restore_example :
    (restored : Document) × (t'' : Tables) × (restore_document_version 3 1 writer edited
      ≡ reply t'')
    × (t''.db.documents ≡ write_document 3 (λ d. restored) edited.db.documents)
    × (restored.content ≡ codes "old")
    × (restored.title ≡ codes "goal")
    × (restored.current_version ≡ 1)
update_document-restore_example =
    update_document-restore (codes "/s") decimal 7 3 true edit writer tables edited edited_disk plan
      (codes "new") edits refl live_plan owns_plan no_version

-- A title that the new name of the file takes on, and a document of somebody else.
refused :
    (delete_document 7 4 writer tables ≡ http_error 403)
    × (delete_document 7 5 writer tables ≡ http_error 404)
    × (reindex_document 4 writer tables ≡ http_error 403)
unfolding delete_document reindex_document can_access_document is_admin in_group
refused = (refl, refl, refl)
