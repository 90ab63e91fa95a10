-- ===== src/Versioning/Tests.antt =====
-- A document that is edited and restored (backend/app/services/versioning.py).
use local_ai_search.Prelude.{
  pos, ℕ, ◌≡◌, ◌≢◌, refl, none, some, [], ◌∷◌, ◌++◌, Text, codes, decimal, All, In, true, false,
}
use local_ai_search.Models.{Document, DocumentVersion, File, Chunk}
use local_ai_search.Versioning.{
  Store, ProcessingJob, max_version, file_of, save_version, save_new_version,
  create_versions_on_edit, restore_version, copy_file_to_version, find_version, version_path,
  version_row,
}
use local_ai_search.Versioning.History.{edit}
use local_ai_search.Versioning.Restore.{restore_version-save_new_version, restore_version-file}

abbrev draft : Document
draft = record {
  id = 3;
  title = codes "draft";
  source_path = none;
  file_type = codes "txt";
  content = codes "first";
  owner_id = some 9;
  folder_id = none;
  group_id = none;
  group_read = false;
  group_write = false;
  others_read = true;
  others_write = false;
  searchable = true;
  ai_knowledge = true;
  share_prohibited = false;
  download_prohibited = false;
  summary = [];
  memo = [];
  processing_status = codes "done";
  created_by_id = none;
  updated_by_id = none;
  updated_at = 0;
  deleted_at = none;
  current_version = 1;
  is_note = false;
  note_content = none;
  parent_note_id = none;
  note_order = pos 0;
  edit_count = 0;
  last_accessed_at = none;
}

abbrev later : Document
later = record draft { title = codes "final"; content = codes "second" }

abbrev file : File
file = record {
  document_id = 3;
  filename = codes "draft.txt";
  storage_path = codes "/s/draft.txt";
  file_size = 5;
}

abbrev chunk : ℕ → Chunk
chunk doc_id = record { document_id = doc_id; chunk_index = 0; content = codes "first" }

abbrev store : Store
store = record {
  versions = [];
  files = file ∷ [];
  chunks = chunk 3 ∷ chunk 4 ∷ [];
  jobs = [];
  disk = λ path. some (codes "first");
}

abbrev root : Text
root = codes "/s"

-- The first edit of a document without versions leaves two.
edited :
    let (n, (doc, s)) = edit root decimal draft later none none store in
    (n ≡ 2) × (max_version 3 s.versions ≡ 2)
unfolding create_versions_on_edit save_new_version save_version copy_file_to_version max_version
edited = (refl, refl)

-- A version of another document.
abbrev other : DocumentVersion
other = record {
  document_id = 4;
  version_number = 1;
  title = codes "other";
  content = codes "text";
  file_type = codes "txt";
  source_path = none;
  file_size = none;
  change_type = none;
  created_by_id = none;
}

abbrev with_other : Store
with_other = record store { versions = other ∷ [] }

abbrev saved : Store
saved = (save_new_version root decimal draft 1 none none with_other).1

abbrev copy : Text
copy = version_path root decimal 3 1 (codes "draft.txt")

abbrev version : DocumentVersion
version = version_row draft 1 none none (some copy, some 5)

-- The other document is purged.
abbrev purged : Store
purged = record saved { versions = version ∷ [] }

row : saved.versions ≡ with_other.versions ++ version ∷ []
unfolding save_new_version save_version copy_file_to_version file_of
row = refl

found_version : find_version 3 1 purged.versions ≡ some version
unfolding find_version
found_version = refl

restore_version-save_new_version_example :
    (restored : Document) × (u : Store) × (restore_version later 1 purged ≡ some (restored, u))
    × (restored.title ≡ codes "draft")
    × (restored.content ≡ codes "first")
    × (restored.current_version ≡ 1)
    × (restored.processing_status ≡ codes "pending")
    × All (λ (c : Chunk). c.document_id ≢ 3) u.chunks
    × (u.versions ≡ purged.versions)
    × (job : ProcessingJob) × In job u.jobs
    × (job.doc_id ≡ 3)
restore_version-save_new_version_example =
    restore_version-save_new_version root decimal draft later 1 none none with_other purged version
      row refl found_version

found : file_of 3 with_other.files ≡ some file
unfolding file_of
found = refl

found_later : file_of 3 purged.files ≡ some file
unfolding file_of save_new_version save_version
found_later = refl

restore_version-file_example :
    (restored : Document) × (u : Store) × (restore_version later 1 purged ≡ some (restored, u))
    × (u.disk (codes "/s/draft.txt") ≡ some (codes "first"))
restore_version-file_example =
    restore_version-file root decimal draft later 1 none none with_other purged version file file
      (codes "first") row refl found_version found refl refl found_later
