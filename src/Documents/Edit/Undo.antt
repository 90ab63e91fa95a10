-- ===== src/Documents/Edit/Undo.antt =====
-- `update_document` and `restore_document_version` of backend/app/routers/documents.py, one after the
-- other, on a document that had no version.
use local_ai_search.Prelude.{
  ℕ, ◌≡◌, refl, sym, ◌∙◌, ap, Bool, true, Option, some, List, [], ◌∷◌, ◌++◌, Text, codes, arith,
  is_some, is_none, ◌||◌, ◌==◌, find?-test, Bool-cases, inl, inr,
}
use mathlib.Core.Path.{subst}
use mathlib.Core.Option.{some-injective}
use local_ai_search.Models.{User, Document, DocumentVersion}
use local_ai_search.Session.{reply}
use local_ai_search.Folders.Update.{or_old}
use local_ai_search.Versioning.{
  Store, max_version, content_or, create_versions_on_edit, save_version, save_new_version,
  version_row, find_version, restore_version,
}
use local_ai_search.Versioning.History.{save_version-row}
use local_ai_search.Versioning.Restore.{restore_version-save_new_version, save_new_version-found}
use local_ai_search.Documents.{
  Tables, live, live_document, with_documents, owns_document, write_document,
  restore_document_version,
}
use local_ai_search.Documents.Edit.{
  DocumentUpdate, edit_title, edit_summary, edit_fields, count_edit, stamp, save_edit,
  update_document,
}
use local_ai_search.Documents.Edit.Answered.{
  edit_title-versions, edit_content-some, finish_edit-reply, Edited, update_document-Edited,
}

-- The columns of a row on which access to it and its versions depend.
abbrev SameRow : Document → Document → Type 0
SameRow a b = (a.id ≡ b.id) × (a.owner_id ≡ b.owner_id) × (a.deleted_at ≡ b.deleted_at)

stamp-SameRow :
    (now : ℕ) (body : DocumentUpdate) (user : User) (doc : Document)
    → let edited = stamp now body user (count_edit now (edit_fields body doc)) in
      SameRow edited doc × (edited.content ≡ doc.content)
stamp-SameRow now body user doc =
    elim (Bool-cases (
      is_some body.title
      || (is_some body.summary || (is_some body.memo || is_some body.content)))) [
        | inl e ↦ rw e ((refl, refl, refl), refl)
        | inr e ↦ rw e ((refl, refl, refl), refl)
      ]

live_document-write :
    (k : ℕ) (docs : List Document) (doc saved : Document)
    → live_document k docs ≡ some doc
    → live k saved ≡ true
    → live_document k (write_document k (λ d. saved) docs) ≡ some saved
unfolding live_document
live_document-write k [] doc saved e h = cc
live_document-write k (d ∷ docs) doc saved e h = elim (Bool-cases (d.id == k)) [
  | inl p ↦ rw p (rw h)
  | inr p ↦ rw p (rw p (live_document-write k docs doc saved (rw p at e) h))
]

live-test :
    (k : ℕ) (docs : List Document) {doc : Document}
    → live_document k docs ≡ some doc
    → (doc.id ≡ k) × (is_none doc.deleted_at ≡ true)
unfolding live_document
live-test k docs e = let t = find?-test (live k) docs e in (ground arith, ground arith)

owned :
    (user : User) (saved doc : Document)
    → saved.owner_id ≡ doc.owner_id
    → owns_document user doc ≡ true
    → owns_document user saved ≡ true
owned user saved doc e own = rw e own

module _ (storage_root : Text) (uuid_text : ℕ → Text) where
  -- The first edit of a document saves it as it is, at number 1, below the new version.
  Edited-first :
      (now : ℕ) (can_write : Bool) (body : DocumentUpdate) (user : User) (t t' : Tables)
      (doc : Document) (content : Text)
      → body.content ≡ some content
      → max_version doc.id t.store.versions ≡ 0
      → Edited storage_root uuid_text now can_write body user t doc t'
      → (before saved : Document) × (s : Store) × (before
          ≡ edit_summary body (record doc { title = or_old body.title doc.title }))
        × SameRow saved doc
        × (saved.content ≡ content)
        × (t'.db.documents ≡ write_document doc.id (λ d. saved) t.db.documents)
        × (max_version before.id s.versions ≡ 0)
        × (more : List DocumentVersion) × (t'.store.versions
            ≡ (save_new_version storage_root uuid_text before 1
                (some user.id)
                (some (codes "upload"))
                s).1.versions
              ++ more)
  unfolding Edited save_new_version create_versions_on_edit
  Edited-first now can_write body user t t' doc content given fresh (n, doc', s', e, done) =
      let (titled, s) = edit_title body.title doc t.store in
      let (kept, retitled) = edit_title-versions body.title doc t.store in
      let before = edit_summary body titled in
      let (is_n, is_doc, is_s) =
        edit_content-some storage_root uuid_text can_write content user before s (rw given at e) in
      let (_, stored, rows, _) =
        finish_edit-reply storage_root uuid_text now body user t n doc' s' done in
      let after = stamp now body user (count_edit now (edit_fields body doc')) in
      let (same, text) = stamp-SameRow now body user doc' in
      let none_yet : max_version before.id s.versions ≡ 0 =
        rw (kept, ap (λ d. d.id) retitled) fresh in
      let is_two : n ≡ some 2 = is_n ∙ rw none_yet in
      let first : s'.versions
          ≡ (save_version storage_root uuid_text before 1 (some user.id) (some (codes "upload"))
              s).versions =
        is_s ∙ rw none_yet in
      let (copy, row) =
        save_version-row storage_root uuid_text after 2 (some user.id) (some (codes "text_edit"))
          s' in
      let out = save_edit storage_root uuid_text (some 2) user after s' in
      (
        before,
        out.0,
        s,
        ap (edit_summary body) retitled,
        (
          same.0 ∙ (ap (λ d. d.id) is_doc ∙ ap (λ d. d.id) retitled),
          same.1 ∙ (ap (λ d. d.owner_id) is_doc ∙ ap (λ d. d.owner_id) retitled),
          same.2 ∙ (ap (λ d. d.deleted_at) is_doc ∙ ap (λ d. d.deleted_at) retitled),
        ),
        text ∙ ap (λ d. d.content) is_doc,
        rows
            ∙ (ap
                  (λ k.
                    write_document doc'.id
                      (λ d. (save_edit storage_root uuid_text k user after s').0) t.db.documents)
                  is_two
                ∙ ap (λ i. write_document i (λ d. out.0) t.db.documents)
                    (ap (λ d. d.id) is_doc ∙ ap (λ d. d.id) retitled)),
        none_yet,
        version_row after 2 (some user.id) (some (codes "text_edit")) copy ∷ [],
        ap (λ x. x.versions) stored
            ∙ (ap (λ k. (save_edit storage_root uuid_text k user after s').1.versions) is_two
                ∙ (row
                    ∙ ap
                        (λ vs.
                          vs
                          ++ version_row after 2 (some user.id) (some (codes "text_edit")) copy
                            ∷ [])
                        first)),
      )

  restore_document_version-found :
      (k : ℕ) (user : User) (t : Tables) {doc restored : Document} {store : Store}
      → live_document k t.db.documents ≡ some doc
      → owns_document user doc ≡ true
      → restore_version doc 1 t.store ≡ some (restored, store)
      → restore_document_version k 1 user t
        ≡ reply (record (with_documents (write_document doc.id (λ d. restored) t.db.documents) t) {
          store = store;
        })
  unfolding restore_document_version
  restore_document_version-found k user t e own r = rw (e, own, r)

  -- The first edit of a document can be undone. If its owner (or an administrator) sends a new content
  -- for a document without versions, and then restores version 1, the restoring succeeds and brings the
  -- old content back (an empty one is not brought back: the new content stays). The title is the one of
  -- the edit, as the version is saved when the new title is already set.
  pub update_document-restore :
      (now k : ℕ) (can_write : Bool) (body : DocumentUpdate) (user : User) (t t' : Tables)
      (disk : Text → Option Text) (doc : Document) (content : Text)
      → update_document storage_root uuid_text now k can_write body user t ≡ some (reply t', disk)
      → body.content ≡ some content
      → live_document k t.db.documents ≡ some doc
      → owns_document user doc ≡ true
      → max_version doc.id t.store.versions ≡ 0
      → (restored : Document) × (t'' : Tables) × (restore_document_version k 1 user t' ≡ reply t'')
        × (t''.db.documents ≡ write_document k (λ d. restored) t'.db.documents)
        × (restored.content ≡ content_or doc.content content)
        × (restored.title ≡ or_old body.title doc.title)
        × (restored.current_version ≡ 1)
  update_document-restore now k can_write body user t t' disk doc content e given there own fresh =
      let (found_doc, there', _, edited) =
        update_document-Edited storage_root uuid_text now k can_write body user t e in
      let same_doc : found_doc ≡ doc = some-injective found_doc doc (sym there' ∙ there) in
      let (before, saved, s, is_before, (id, owner, trash), text, rows, none_yet, more, versions) =
        Edited-first now can_write body user t t' doc content given fresh (
          subst (λ d. Edited storage_root uuid_text now can_write body user t d t') same_doc
            edited) in
      let (doc_k, doc_live) = live-test k t.db.documents there in
      let is_live : live k saved ≡ true = ground (arith, id, doc_k, trash, doc_live) in
      let there'' : live_document k t'.db.documents ≡ some saved =
        rw (rows, doc_k) (live_document-write k t.db.documents doc saved there is_live) in
      let (v, row, at_one) =
        save_new_version-found storage_root uuid_text before 1 (some user.id)
          (some (codes "upload")) s more (omega (arith, none_yet)) in
      let (restored, store, back, title, restored_text, number, _, _, _, _, _, _) =
        restore_version-save_new_version storage_root uuid_text before saved 1 (some user.id)
          (some (codes "upload")) s t'.store v row (id ∙ sym (ap (λ d. d.id) is_before))
          (ap (find_version before.id 1) versions ∙ at_one) in
      (
        restored,
        _,
        restore_document_version-found k user t' there'' (owned user saved doc owner own) back,
        ap (λ i. write_document i (λ d. restored) t'.db.documents) (id ∙ doc_k),
        restored_text
            ∙ (ap (λ c. content_or c saved.content) (ap (λ d. d.content) is_before)
                ∙ ap (content_or doc.content) text),
        title ∙ ap (λ d. d.title) is_before,
        number,
      )
