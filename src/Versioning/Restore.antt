-- ===== src/Versioning/Restore.antt =====
-- backend/app/services/versioning.py: what `restore_version` brings back.
use local_ai_search.Prelude.{
  ℕ, ◌<◌, ◌≡◌, ◌≢◌, refl, ap, sym, ◌∙◌, Option, none, some, List, [], ◌∷◌, ◌++◌, Text, codes, arith,
  All, In, In-last, text_eq_iff, All-map, All-select_test,
}
use mathlib.Core.List.{append_assoc}
use local_ai_search.Models.{Document, DocumentVersion, File, Chunk}
use local_ai_search.Versioning.{
  Store, max_version, save_version, save_new_version, version_row, restore_version, find_version,
  apply_version, restore_content, content_or, copy_file_to_version, file_of, version_path,
  ProcessingJob, read_path, restore_found,
}
use local_ai_search.Versioning.History.{MaxBounds, max_version-MaxBounds, save_version-row}

find_version-new :
    (vs more : List DocumentVersion) (v : DocumentVersion) (m : ℕ)
    → m < v.version_number
    → MaxBounds v.document_id vs m
    → find_version v.document_id v.version_number (vs ++ v ∷ more) ≡ some v
unfolding find_version
find_version-new [] more v m p h = ground arith
find_version-new (w ∷ vs) more v m p h = ground (arith, find_version-new vs more v m p h.1)

restore_content-keeps :
    (doc_id : ℕ) (version : DocumentVersion) (content : Option Text) (f : Option File) (s : Store)
    → (restore_content doc_id version content f s).versions ≡ s.versions
unfolding restore_content
restore_content-keeps doc_id version none f s = refl
restore_content-keeps doc_id version (some content) none s = refl
restore_content-keeps doc_id version (some content) (some f) s = refl

apply_version-rows :
    (doc : Document) (version : DocumentVersion) (s : Store)
    → let (restored, s') = apply_version doc version s in
      All (λ (c : Chunk). c.document_id ≢ doc.id) s'.chunks
      × (s'.versions ≡ s.versions)
      × (job : ProcessingJob) × In job s'.jobs
      × (job.doc_id ≡ doc.id)
unfolding apply_version
apply_version-rows doc version s =
    let read = read_path s.disk version.source_path in
    let s' = restore_content doc.id version read (file_of doc.id s.files) s in
    (
      All-select_test _ _ s'.chunks (λ c p. ground arith),
      restore_content-keeps doc.id version read (file_of doc.id s.files) s,
      _,
      In-last s'.jobs _,
      refl,
    )

restore_version-found :
    (doc : Document) (n : ℕ) (s : Store) (v : DocumentVersion)
    → find_version doc.id n s.versions ≡ some v
    → restore_version doc n s ≡ some (apply_version doc v s)
unfolding restore_version
restore_version-found doc n s v e = ap (restore_found doc s) e

apply_version-fields :
    (doc : Document) (version : DocumentVersion) (s : Store)
    → let (restored, s') = apply_version doc version s in
      (restored.id ≡ doc.id)
      × (restored.title ≡ version.title)
      × (restored.content ≡ content_or version.content doc.content)
      × (restored.current_version ≡ version.version_number)
      × (restored.processing_status ≡ codes "pending")
unfolding apply_version
apply_version-fields doc version s = (refl, refl, refl, refl, refl)

head_or : DocumentVersion → List DocumentVersion → DocumentVersion
head_or v [] = v
head_or v (w ∷ vs) = w

tail : List DocumentVersion → List DocumentVersion
tail [] = []
tail (w ∷ vs) = vs

-- With the version's copy and a file record both there, the record's path holds the copy's content.
apply_version-disk :
    (doc : Document) (version : DocumentVersion) (s : Store) (f : File) (content : Text)
    → read_path s.disk version.source_path ≡ some content
    → file_of doc.id s.files ≡ some f
    → (apply_version doc version s).1.disk f.storage_path ≡ some content
unfolding apply_version restore_content
apply_version-disk doc version s f content e g =
    rw (e, g, (text_eq_iff f.storage_path f.storage_path).1 refl)

read_path-append :
    (disk : Text → Option Text) (s : Text) (c : ℕ) (t : Text)
    → read_path disk (some (s ++ c ∷ t)) ≡ disk (s ++ c ∷ t)
read_path-append disk [] c t = refl
read_path-append disk (d ∷ s) c t = refl

-- The row at the end of a table is one row.
last_row : (vs : List DocumentVersion) {v w : DocumentVersion} → vs ++ v ∷ [] ≡ vs ++ w ∷ [] → v ≡ w
unfolding head_or tail
last_row [] {v} {w} e = ap (head_or v) e
last_row (u ∷ vs) {v} {w} e = last_row vs (ap tail e)

module _ (storage_root : Text) (uuid_text : ℕ → Text) where
  -- A version is found where only later rows follow the table in which it was saved at a new number.
  pub save_new_version-found :
      (doc : Document) (n : ℕ) (user_id : Option ℕ) (change_type : Option Text) (s : Store)
      (more : List DocumentVersion)
      → max_version doc.id s.versions < n
      → (v : DocumentVersion) × ((save_new_version storage_root uuid_text doc n user_id change_type
            s).1.versions
          ≡ s.versions ++ v ∷ [])
        × (find_version doc.id n (
              (save_new_version storage_root uuid_text doc n user_id change_type s).1.versions
              ++ more)
            ≡ some v)
  unfolding save_new_version
  save_new_version-found doc n user_id change_type s more above =
      let (copy, row) = save_version-row storage_root uuid_text doc n user_id change_type s in
      let v = version_row doc n user_id change_type copy in
      (
        v,
        row,
        rw (row, append_assoc s.versions (v ∷ []) more)
            (find_version-new s.versions more v (max_version doc.id s.versions) above
              (max_version-MaxBounds doc.id s.versions)),
      )

  -- What is saved of a document comes back. Save it as the version `n`, which is the row `v`, and let
  -- the document and the store change in any way, so long as the document keeps its id and the
  -- lookup of its version `n` finds `v`. Then `restore_version` at `n` succeeds and gives the saved title,
  -- the saved text unless that was empty (then the text stays as it is), and `n` as current version; the
  -- document is pending again, has no chunks left, a processing job of it is queued, and the version
  -- rows stay.
  pub restore_version-save_new_version :
      (doc later : Document) (n : ℕ) (user_id : Option ℕ) (change_type : Option Text) (s t : Store)
      (v : DocumentVersion)
      → (save_new_version storage_root uuid_text doc n user_id change_type s).1.versions
        ≡ s.versions ++ v ∷ []
      → later.id ≡ doc.id
      → find_version doc.id n t.versions ≡ some v
      → (restored : Document) × (u : Store) × (restore_version later n t ≡ some (restored, u))
        × (restored.title ≡ doc.title)
        × (restored.content ≡ content_or doc.content later.content)
        × (restored.current_version ≡ n)
        × (restored.processing_status ≡ codes "pending")
        × All (λ (c : Chunk). c.document_id ≢ doc.id) u.chunks
        × (u.versions ≡ t.versions)
        × (job : ProcessingJob) × In job u.jobs
        × (job.doc_id ≡ doc.id)
  unfolding save_new_version
  restore_version-save_new_version doc later n user_id change_type s t v saved same found =
      let (copy, row) = save_version-row storage_root uuid_text doc n user_id change_type s in
      let is_v : version_row doc n user_id change_type copy ≡ v =
        last_row s.versions (sym row ∙ saved) in
      let there : find_version later.id n t.versions ≡ some v = rw same found in
      let (id_kept, title, content, number, pending) = apply_version-fields later v t in
      let (chunks, rows, job, queued, job_doc) = apply_version-rows later v t in
      (
        _,
        _,
        restore_version-found later n t v there,
        title ∙ sym (ap (λ w. w.title) is_v),
        content ∙ sym (ap (λ w. content_or w.content later.content) is_v),
        number ∙ sym (ap (λ w. w.version_number) is_v),
        pending,
        All-map _ _ _ (λ c p e. p (e ∙ sym same)) chunks,
        rows,
        job,
        queued,
        job_doc ∙ same,
      )

  save_version-copy :
      (doc : Document) (n : ℕ) (user_id : Option ℕ) (change_type : Option Text) (s : Store)
      (f : File) (content : Text)
      → file_of doc.id s.files ≡ some f
      → s.disk f.storage_path ≡ some content
      → let saved = save_version storage_root uuid_text doc n user_id change_type s in
        let copy = version_path storage_root uuid_text doc.id n f.filename in
        (saved.versions
          ≡ s.versions ++ version_row doc n user_id change_type (some copy, some f.file_size) ∷ [])
        × (saved.disk copy ≡ some content)
  unfolding save_version copy_file_to_version
  save_version-copy doc n user_id change_type s f content file was_there =
      let copy = version_path storage_root uuid_text doc.id n f.filename in
      rw (file, was_there) (refl, rw ((text_eq_iff copy copy).1 refl))

  -- The file too, if the document has a file record by then: where the file of the document was on the
  -- disk when the version `n` was saved as the row `v`, the document kept its id, the lookup of
  -- its version `n` finds `v`, and the version's copy on the disk is as it was saved, `restore_version` at `n`
  -- brings the content back to the path that the file record has by then.
  pub restore_version-file :
      (doc later : Document) (n : ℕ) (user_id : Option ℕ) (change_type : Option Text) (s t : Store)
      (v : DocumentVersion) (f g : File) (content : Text)
      → let saved = (save_new_version storage_root uuid_text doc n user_id change_type s).1 in
        let copy = version_path storage_root uuid_text doc.id n f.filename in
        saved.versions ≡ s.versions ++ v ∷ []
        → later.id ≡ doc.id
        → find_version doc.id n t.versions ≡ some v
        → file_of doc.id s.files ≡ some f
        → s.disk f.storage_path ≡ some content
        → t.disk copy ≡ saved.disk copy
        → file_of doc.id t.files ≡ some g
        → (restored : Document) × (u : Store) × (restore_version later n t ≡ some (restored, u))
          × (u.disk g.storage_path ≡ some content)
  unfolding save_new_version
  restore_version-file doc later n user_id change_type s t v f g content saved same found file
        was_there copied file' =
      let copy = version_path storage_root uuid_text doc.id n f.filename in
      let (row, at_copy) = save_version-copy doc n user_id change_type s f content file was_there in
      let is_v : version_row doc n user_id change_type (some copy, some f.file_size) ≡ v =
        last_row s.versions (sym row ∙ saved) in
      let read : read_path t.disk v.source_path ≡ some content =
        sym (ap (λ w. read_path t.disk w.source_path) is_v)
        ∙ (read_path-append t.disk storage_root _ _ ∙ (copied ∙ at_copy)) in
      (
        _,
        _,
        restore_version-found later n t v (rw same found),
        apply_version-disk later v t g content read (rw same file'),
      )
