-- ===== src/Versioning.antt =====
-- backend/app/services/versioning.py: snapshots of a document, and the way back to one.
pub mod History
pub mod Restore
mod Tests
use local_ai_search.Prelude.{
  ℕ, ◌+◌, Bool, true, false, ◌&&◌, Option, none, some, List, [], ◌∷◌, ◌++◌, Text, codes, decimal,
  text_eq, starts_with, max, ◌==◌, not, if◌then◌else◌, is_some, select, find?, update_first,
}
use local_ai_search.Models.{Document, File, DocumentVersion, Chunk}
use local_ai_search.Filename.{sanitize_filename}

-- The payload of a `document_processing` job.
pub record ProcessingJob : Type 0 where
  pub doc_id : ℕ
  pub storage_path : Text
  pub file_type : Text
  pub filename : Text

-- The rows and the disk that the functions reach beside the document itself: its versions, its file
-- record, the chunks, the queued jobs, and the content at each path.
pub record Store : Type 0 where
  pub versions : List DocumentVersion
  pub files : List File
  pub chunks : List Chunk
  pub jobs : List ProcessingJob
  pub disk : Text → Option Text

-- `func.max(...)`, or 0 if there is no version
unfoldable pub max_version : ℕ → List DocumentVersion → ℕ
max_version doc_id [] = 0
max_version doc_id (v ∷ versions) =
    let rest = max_version doc_id versions in
    if v.document_id == doc_id then max v.version_number rest else rest

unfoldable pub file_of : ℕ → List File → Option File
file_of doc_id = find? (λ f. f.document_id == doc_id)

-- `shutil.copy2`, of a file that is there
abbrev pub copy_file : (content dest : Text) → (Text → Option Text) → Text → Option Text
copy_file content dest disk path = if text_eq path dest then some content else disk path

abbrev pub version_row :
    (doc : Document) (version_number : ℕ) (user_id : Option ℕ) (change_type : Option Text)
    → (copy : Option Text × Option ℕ) → DocumentVersion
version_row doc version_number user_id change_type copy = record {
  document_id = doc.id;
  version_number = version_number;
  title = doc.title;
  content = doc.content;
  file_type = doc.file_type;
  source_path = copy.0;
  file_size = copy.1;
  change_type = change_type;
  created_by_id = user_id;
}

-- `STORAGE_ROOT` and the text of a UUID
module _ (storage_root : Text) (uuid_text : ℕ → Text) where
  abbrev pub version_path : (doc_id version_number : ℕ) (filename : Text) → Text
  version_path doc_id version_number filename =
      storage_root
      ++ (codes "/versions/"
          ++ (uuid_text doc_id
              ++ (codes "/"
                  ++ (decimal version_number ++ (codes "/" ++ sanitize_filename filename)))))

  -- `shutil.rmtree` of the directory of the document's versions.
  unfoldable pub delete_version_files : (doc_id : ℕ) → (Text → Option Text) → Text → Option Text
  delete_version_files doc_id disk path =
      if starts_with path (storage_root ++ (codes "/versions/" ++ (uuid_text doc_id ++ codes "/")))
      then none
      else disk path

  abbrev copy_content :
      (doc_id version_number : ℕ)
      → File
      → Option Text
      → (Text → Option Text)
      → (Option Text × Option ℕ) × (Text → Option Text)
  copy_content doc_id version_number f none disk = ((none, none), disk)
  copy_content doc_id version_number f (some content) disk =
      let dest = version_path doc_id version_number f.filename in
      ((some dest, some f.file_size), copy_file content dest disk)

  -- The source path and the size for the version row, and the disk.
  unfoldable pub copy_file_to_version :
      (doc_id version_number : ℕ)
      → Option File
      → (Text → Option Text)
      → (Option Text × Option ℕ) × (Text → Option Text)
  copy_file_to_version doc_id version_number none disk = ((none, none), disk)
  copy_file_to_version doc_id version_number (some f) disk =
      copy_content doc_id version_number f (disk f.storage_path) disk

  -- `_copy_file_to_version` and `_save_version` on the document as it is now.
  unfoldable pub save_version :
      (doc : Document) (version_number : ℕ) (user_id : Option ℕ) (change_type : Option Text)
      → Store
      → Store
  save_version doc version_number user_id change_type s =
      let (copy, disk) =
        copy_file_to_version doc.id version_number (file_of doc.id s.files) s.disk in
      record s {
        versions = s.versions ++ version_row doc version_number user_id change_type copy ∷ [];
        disk = disk;
      }

  unfoldable pub create_initial_version : Document → (user_id : Option ℕ) → Store → Document × Store
  create_initial_version doc user_id s =
      (record doc { current_version = 1 }, save_version doc 1 user_id (some (codes "upload")) s)

  -- The number for the new state, and the store.
  unfoldable pub create_versions_on_edit : Document → (user_id : Option ℕ) → Store → ℕ × Store
  create_versions_on_edit doc user_id s =
      if max_version doc.id s.versions == 0
      then (2, save_version doc 1 user_id (some (codes "upload")) s)
      else (max_version doc.id s.versions + 1, s)

  unfoldable pub save_new_version :
      (doc : Document) (version_number : ℕ) (user_id : Option ℕ) (change_type : Option Text)
      → Store
      → Document × Store
  save_new_version doc version_number user_id change_type s = (
    record doc { current_version = version_number },
    save_version doc version_number user_id change_type s,
  )

-- `if version.content: doc.content = version.content`
abbrev pub content_or : Text → Text → Text
content_or [] old = old
content_or (c ∷ content) old = c ∷ content

abbrev size_or : Option ℕ → ℕ → ℕ
size_or none old = old
size_or (some n) old = n

-- The physical file of the version, if there is one: its content goes to the path of the file record
-- that the query with LIMIT 1 gives, and its size to that row.
pub restore_content : (doc_id : ℕ) → DocumentVersion → Option Text → Option File → Store → Store
restore_content doc_id version none r s = s
restore_content doc_id version (some content) none s = s
restore_content doc_id version (some content) (some f) s = record s {
  files =
      update_first (λ g. g.document_id == doc_id)
        (λ g. record g { file_size = size_or version.file_size g.file_size }) s.files;
  disk = copy_file content f.storage_path s.disk;
}

abbrev pub read_path : (Text → Option Text) → Option Text → Option Text
read_path disk none = none
read_path disk (some []) = none
read_path disk (some (c ∷ path)) = disk (c ∷ path)

-- `file_rec.storage_path if file_rec else ""`
abbrev path_or_empty : Option File → Text
path_or_empty none = []
path_or_empty (some f) = f.storage_path

-- `file_rec.filename if file_rec else doc.title`
abbrev filename_or_title : Option File → Document → Text
filename_or_title none doc = doc.title
filename_or_title (some f) doc = f.filename

abbrev job_of : Document → Option File → ProcessingJob
job_of doc f = record {
  doc_id = doc.id;
  storage_path = path_or_empty f;
  file_type = doc.file_type;
  filename = filename_or_title f doc;
}

-- The body of `restore_version` on the version that it found.
unfoldable pub apply_version : Document → DocumentVersion → Store → Document × Store
unfolding restore_content
apply_version doc version s =
    let doc' : Document = record doc {
      content = content_or version.content doc.content;
      title = version.title;
      current_version = version.version_number;
      processing_status = codes "pending";
    } in
    let s' =
      restore_content doc.id version (read_path s.disk version.source_path) (file_of doc.id s.files)
        s in
    (
      doc',
      record s' {
        chunks = select (λ c. not (c.document_id == doc.id)) s'.chunks;
        jobs = s'.jobs ++ job_of doc' (file_of doc.id s'.files) ∷ [];
      },
    )

unfoldable pub find_version :
    (doc_id version_number : ℕ) → List DocumentVersion → Option DocumentVersion
find_version doc_id version_number =
    find? (λ v. (v.document_id == doc_id) && (v.version_number == version_number))

abbrev pub restore_found : Document → Store → Option DocumentVersion → Option (Document × Store)
restore_found doc s none = none
restore_found doc s (some version) = some (apply_version doc version s)

-- `none` is the `ValueError` of a version that is not there.
unfoldable pub restore_version : Document → (version_number : ℕ) → Store → Option (Document × Store)
restore_version doc version_number s =
    restore_found doc s (find_version doc.id version_number s.versions)
