-- ===== src/Documents/Edit/Answered.antt =====
-- What an answered `update_document` of backend/app/routers/documents.py went through.
use local_ai_search.Prelude.{
  ℕ, ◌≡◌, ◌≢◌, refl, sym, ◌∙◌, ap, Bool, true, not, ◌&&◌, Option, none, some, Text, codes, text_eq,
  Bool-cases, Option-cases, inl, inr,
}
use mathlib.Core.Option.{some-injective}
use local_ai_search.Models.{User, Document}
use local_ai_search.Session.{http_error, reply, required, answered, reply-injective}
use local_ai_search.Chunking.{chunk_text}
use local_ai_search.Folders.Update.{or_old, continue_with-some}
use local_ai_search.Versioning.{Store, create_versions_on_edit}
use local_ai_search.Documents.{Tables, live_document, may_write, write_document}
use local_ai_search.Documents.Bulk.{is_empty}
use local_ai_search.Documents.Edit.{
  DocumentUpdate, edit_title, edit_summary, edit_fields, write_source, edit_content, count_edit,
  stamp, save_edit, check_folder, replace_tags, finish_edit, edit_document, edit_found,
  update_document,
}

first_of : {A B : Type 0} → A → Option (A × B) → A
first_of a none = a
first_of a (some (x, y)) = x

first-injective :
    {A B : Type 0} {a a' : A} {b b' : B}
    → ◌≡◌ {A = Option (A × B)} (some (a, b)) (some (a', b'))
    → a ≡ a'
unfolding first_of
first-injective {a = a} e = ap (first_of a) e

http_error≢reply : {A : Type 0} {status : ℕ} {a : A} → http_error status ≢ reply a
http_error≢reply e = cc

pub edit_title-versions :
    (title : Option Text) (doc : Document) (s : Store)
    → let (titled, s') = edit_title title doc s in
      (s'.versions ≡ s.versions) × (titled ≡ record doc { title = or_old title doc.title })
unfolding edit_title
edit_title-versions none doc s = (refl, refl)
edit_title-versions (some title) doc s = (refl, refl)

write_source-versions :
    (can_write : Bool) (content : Text) (doc : Document) (s : Store)
    → (write_source can_write content doc s).versions ≡ s.versions
unfolding write_source
write_source-versions can_write content doc s = elim (Option-cases doc.source_path) [
  | inl e ↦ rw e
  | inr (path, e) ↦
      elim (Bool-cases (text_eq doc.file_type (codes "md") && (not (is_empty path) && can_write))) [
        | inl t ↦ rw (e, t)
        | inr t ↦ rw (e, t)
      ]
]

module _ (storage_root : Text) (uuid_text : ℕ → Text) where
  pub edit_content-some :
      (can_write : Bool) (content : Text) (user : User) (doc : Document) (s : Store)
      {number : Option ℕ} {doc' : Document} {s' : Store}
      → edit_content storage_root uuid_text can_write (some content) user doc s
        ≡ some (number, doc', s')
      → let (n, numbered) = create_versions_on_edit storage_root uuid_text doc (some user.id) s in
        (number ≡ some n)
        × (doc' ≡ record doc { content = content })
        × (s'.versions ≡ numbered.versions)
  unfolding edit_content
  edit_content-some can_write content user doc s {number} {doc'} {s'} e =
      let (contents, _, e1) = continue_with-some (chunk_text content 800 100) _ e in
      let same = some-injective _ (number, doc', s') e1 in
      (
        sym (ap (λ r. r.0) same),
        sym (ap (λ r. r.1) same),
        sym (ap (λ r. r.2.versions) same)
            ∙ write_source-versions can_write content (record doc { content = content })
                (create_versions_on_edit storage_root uuid_text doc (some user.id) s).1,
      )

  -- The rows that a finished edit leaves.
  pub finish_edit-reply :
      (now : ℕ) (body : DocumentUpdate) (user : User) (t : Tables) (n : Option ℕ) (doc : Document)
      (s : Store) {t' : Tables}
      → finish_edit storage_root uuid_text now body user t (n, doc, s) ≡ reply t'
      → let edited = stamp now body user (count_edit now (edit_fields body doc)) in
        let (saved, s') = save_edit storage_root uuid_text n user edited s in
        (check_folder body.folder_id user t.db ≡ reply tt)
        × (t'.store ≡ s')
        × (t'.db.documents ≡ write_document doc.id (λ d. saved) t.db.documents)
        × (t'.tags ≡ replace_tags doc.id body.tag_ids t.tags)
  unfolding finish_edit
  finish_edit-reply now body user t n doc s {t'} e =
      let (done, folder, e1) = answered (check_folder body.folder_id user t.db) _ e in
      let (_, e2) = required _ 500 _ e1 in
      let same = sym (reply-injective _ t' e2) in
      (folder, ap (λ x. x.store) same, ap (λ x. x.db.documents) same, ap (λ x. x.tags) same)

  -- The edit of a document that is found, and what it finishes with.
  unfoldable pub Edited : ℕ → Bool → DocumentUpdate → User → Tables → Document → Tables → Type 0
  Edited now can_write body user t doc t' =
      let (titled, s) = edit_title body.title doc t.store in
      (n : Option ℕ) × (doc' : Document) × (s' : Store) × (edit_content storage_root uuid_text
          can_write body.content user (edit_summary body titled) s
        ≡ some (n, doc', s'))
      × (finish_edit storage_root uuid_text now body user t (n, doc', s') ≡ reply t')

  edit_document-Edited :
      (now : ℕ) (can_write : Bool) (body : DocumentUpdate) (user : User) (t : Tables)
      (doc : Document) {t' : Tables} {disk : Text → Option Text}
      → edit_document storage_root uuid_text now can_write body user t doc ≡ some (reply t', disk)
      → Edited now can_write body user t doc t'
  unfolding Edited
  edit_document-Edited now can_write body user t doc e =
      let (titled, s) = edit_title body.title doc t.store in
      let ((n, doc', s'), there, e1) =
        continue_with-some
          (edit_content storage_root uuid_text can_write body.content user
            (edit_summary body titled) s)
          _ e in
      (n, doc', s', there, first-injective e1)

  edit_found-reply :
      (now : ℕ) (can_write : Bool) (body : DocumentUpdate) (user : User) (t : Tables)
      (doc : Document) {t' : Tables} {disk : Text → Option Text}
      → edit_found storage_root uuid_text now can_write body user t (some doc)
        ≡ some (reply t', disk)
      → (may_write doc user t ≡ true)
        × (edit_document storage_root uuid_text now can_write body user t doc
            ≡ some (reply t', disk))
  edit_found-reply now can_write body user t doc e = elim (Bool-cases (may_write doc user t)) [
    | inl p ↦ (p, rw p at e)
    | inr p ↦ absurd (http_error≢reply (first-injective (rw p at e)))
  ]

  edit_found-Edited :
      (now : ℕ) (can_write : Bool) (body : DocumentUpdate) (user : User) (t : Tables)
      (found : Option Document) {t' : Tables} {disk : Text → Option Text}
      → edit_found storage_root uuid_text now can_write body user t found ≡ some (reply t', disk)
      → (doc : Document) × (found ≡ some doc)
        × (may_write doc user t ≡ true)
        × Edited now can_write body user t doc t'
  edit_found-Edited now can_write body user t none e = absurd (http_error≢reply (first-injective e))
  edit_found-Edited now can_write body user t (some doc) e =
      let (writable, e1) = edit_found-reply now can_write body user t doc e in
      (doc, refl, writable, edit_document-Edited now can_write body user t doc e1)

  pub update_document-Edited :
      (now k : ℕ) (can_write : Bool) (body : DocumentUpdate) (user : User) (t : Tables)
      {t' : Tables} {disk : Text → Option Text}
      → update_document storage_root uuid_text now k can_write body user t ≡ some (reply t', disk)
      → (doc : Document) × (live_document k t.db.documents ≡ some doc)
        × (may_write doc user t ≡ true)
        × Edited now can_write body user t doc t'
  unfolding update_document
  update_document-Edited now k can_write body user t =
      edit_found-Edited now can_write body user t (live_document k t.db.documents)
