-- ===== src/Documents/Edit/Numbers.antt =====
-- The versions that `update_document` of backend/app/routers/documents.py writes.
use local_ai_search.Prelude.{
  ℕ, ◌<◌, ◌≡◌, refl, sym, ◌∙◌, ap, Bool, true, Option, some, List, [], ◌∷◌, ◌++◌, Text, codes,
  is_some, ◌||◌, Bool-cases, inl, inr, arith, ◌==◌, if◌then◌else◌, length, length-append, All,
  All-append,
}
use mathlib.Core.List.{append_assoc}
use mathlib.Core.Path.{subst}
use local_ai_search.Models.{User, Document, DocumentVersion}
use local_ai_search.Session.{reply}
use local_ai_search.Versioning.{
  Store, max_version, create_versions_on_edit, save_version, save_new_version, version_row,
}
use local_ai_search.Versioning.History.{
  IsNumbered, create_versions_on_edit_lem, save_version-fresh, save_version-row,
}
use local_ai_search.Documents.{Tables, live_document, may_write, write_document}
use local_ai_search.Documents.Edit.{
  DocumentUpdate, edit_title, edit_summary, edit_fields, count_edit, stamp, save_edit,
  update_document,
}
use local_ai_search.Documents.Edit.Answered.{
  edit_title-versions, edit_content-some, finish_edit-reply, Edited, update_document-Edited,
}

-- What a finished edit with a new version leaves of the document and of the versions.
abbrev Saved : Document → Text → Tables → Tables → Type 0
Saved doc content t t' =
    (saved : Document) × (t'.db.documents ≡ write_document doc.id (λ d. saved) t.db.documents)
    × (saved.id ≡ doc.id)
    × (saved.content ≡ content)
    × IsNumbered t'.store.versions
    × (added : List DocumentVersion) × (t'.store.versions ≡ t.store.versions ++ added)
    × (length added ≡ (if max_version doc.id t.store.versions == 0 then 2 else 1))
    × All (λ v. v.document_id ≡ doc.id) added
    × (max_version doc.id t.store.versions < saved.current_version)
    × (max_version doc.id t'.store.versions ≡ saved.current_version)

stamp-kept :
    (now : ℕ) (body : DocumentUpdate) (user : User) (doc : Document)
    → let edited = stamp now body user (count_edit now (edit_fields body doc)) in
      (edited.id ≡ doc.id) × (edited.content ≡ doc.content)
stamp-kept now body user doc =
    elim (Bool-cases (
      is_some body.title
      || (is_some body.summary || (is_some body.memo || is_some body.content)))) [
        | inl e ↦ rw e (refl, refl)
        | inr e ↦ rw e (refl, refl)
      ]

one_more :
    (m : ℕ) (added : List DocumentVersion) (v : DocumentVersion)
    → length added ≡ (if m == 0 then 1 else 0)
    → length (added ++ v ∷ []) ≡ (if m == 0 then 2 else 1)
one_more m added v h = ground (arith, length-append added (v ∷ []))

module _ (storage_root : Text) (uuid_text : ℕ → Text) where
  -- `save_new_version` at the number of `create_versions_on_edit`, on a store with its versions.
  saved_versions :
      (before after : Document) (n : ℕ) (user_id : Option ℕ) (change_type : Option Text)
      (s s' : Store)
      → after.id ≡ before.id
      → IsNumbered s.versions
      → n ≡ (create_versions_on_edit storage_root uuid_text before user_id s).0
      → s'.versions ≡ (create_versions_on_edit storage_root uuid_text before user_id s).1.versions
      → let out = (save_new_version storage_root uuid_text after n user_id change_type s').1 in
        IsNumbered out.versions
        × (added : List DocumentVersion) × (out.versions ≡ s.versions ++ added)
        × (length added ≡ (if max_version before.id s.versions == 0 then 2 else 1))
        × All (λ v. v.document_id ≡ before.id) added
        × (max_version before.id s.versions < n)
        × (max_version before.id out.versions ≡ n)
  unfolding save_new_version
  saved_versions before after n user_id change_type s s' same numbered is_n kept =
      let (numbered', top, above, added, more, count, owned) =
        create_versions_on_edit_lem storage_root uuid_text before user_id s numbered in
      let top' : max_version after.id s'.versions < n = rw (same, kept, is_n) top in
      let (fresh, highest) =
        save_version-fresh storage_root uuid_text after n user_id change_type s' (rw kept numbered')
          top' in
      let (copy, row) = save_version-row storage_root uuid_text after n user_id change_type s' in
      let v = version_row after n user_id change_type copy in
      let out = save_version storage_root uuid_text after n user_id change_type s' in
      (
        fresh,
        added ++ v ∷ [],
        row ∙ (ap (λ vs. vs ++ v ∷ []) (kept ∙ more) ∙ append_assoc s.versions added (v ∷ [])),
        one_more (max_version before.id s.versions) added v count,
        All-append (λ w. w.document_id ≡ before.id) added (v ∷ []) owned (same, tt),
        rw is_n above,
        ap (λ i. max_version i out.versions) (sym same) ∙ highest,
      )

  Edited-Saved :
      (now : ℕ) (can_write : Bool) (body : DocumentUpdate) (user : User) (t t' : Tables)
      (doc : Document) (content : Text)
      → body.content ≡ some content
      → IsNumbered t.store.versions
      → Edited storage_root uuid_text now can_write body user t doc t'
      → Saved doc content t t'
  unfolding Edited save_new_version
  Edited-Saved now can_write body user t t' doc content given numbered (n, doc', s', e, done) =
      let (titled, s) = edit_title body.title doc t.store in
      let (kept, retitled) = edit_title-versions body.title doc t.store in
      let same_id : titled.id ≡ doc.id = ap (λ d. d.id) retitled in
      let before = edit_summary body titled in
      let (is_n, is_doc, is_s) =
        edit_content-some storage_root uuid_text can_write content user before s (rw given at e) in
      let m = (create_versions_on_edit storage_root uuid_text before (some user.id) s).0 in
      let (_, stored, rows, _) =
        finish_edit-reply storage_root uuid_text now body user t n doc' s' done in
      let after = stamp now body user (count_edit now (edit_fields body doc')) in
      let (same, text) = stamp-kept now body user doc' in
      let doc_id : doc'.id ≡ doc.id = ap (λ d. d.id) is_doc ∙ same_id in
      let out = save_edit storage_root uuid_text (some m) user after s' in
      let is_out : t'.store ≡ out.1 =
        stored ∙ ap (λ k. (save_edit storage_root uuid_text k user after s').1) is_n in
      let (fresh, added, more, count, owned, above, highest) =
        saved_versions before after m (some user.id) (some (codes "text_edit")) s s'
          (same ∙ ap (λ d. d.id) is_doc) (rw kept numbered) refl is_s in
      (
        out.0,
        rows
            ∙ (ap
                  (λ k.
                    write_document doc'.id
                      (λ d. (save_edit storage_root uuid_text k user after s').0) t.db.documents)
                  is_n
                ∙ ap (λ i. write_document i (λ d. out.0) t.db.documents) doc_id),
        same ∙ doc_id,
        text ∙ ap (λ d. d.content) is_doc,
        subst (λ (x : Store). IsNumbered x.versions) (sym is_out) fresh,
        added,
        ap (λ x. x.versions) is_out ∙ (more ∙ ap (λ vs. vs ++ added) kept),
        subst (λ vs. length added ≡ (if max_version doc.id vs == 0 then 2 else 1)) kept
            (subst (λ i. length added ≡ (if max_version i s.versions == 0 then 2 else 1)) same_id
              count),
        subst (λ i. All (λ v. v.document_id ≡ i) added) same_id owned,
        subst (λ vs. max_version doc.id vs < m) kept
            (subst (λ i. max_version i s.versions < m) same_id above),
        ap (λ x. max_version doc.id x.versions) is_out
            ∙ (ap (λ i. max_version i out.1.versions) (sym same_id) ∙ highest),
      )

  -- An answered `update_document` with a new content had a live document that the user may write. It
  -- leaves in its place a row with the content, and adds one version of the document, or two where it had
  -- none: the version numbers of each document stay different, the earlier versions stay as they
  -- were, and the document's current version is above them and the highest there is.
  pub update_document-IsNumbered :
      (now k : ℕ) (can_write : Bool) (body : DocumentUpdate) (user : User) (t t' : Tables)
      (disk : Text → Option Text) (content : Text)
      → update_document storage_root uuid_text now k can_write body user t ≡ some (reply t', disk)
      → body.content ≡ some content
      → IsNumbered t.store.versions
      → (doc : Document) × (live_document k t.db.documents ≡ some doc)
        × (may_write doc user t ≡ true)
        × (saved : Document) × (t'.db.documents ≡ write_document doc.id (λ d. saved) t.db.documents)
        × (saved.id ≡ doc.id)
        × (saved.content ≡ content)
        × IsNumbered t'.store.versions
        × (added : List DocumentVersion) × (t'.store.versions ≡ t.store.versions ++ added)
        × (length added ≡ (if max_version doc.id t.store.versions == 0 then 2 else 1))
        × All (λ v. v.document_id ≡ doc.id) added
        × (max_version doc.id t.store.versions < saved.current_version)
        × (max_version doc.id t'.store.versions ≡ saved.current_version)
  update_document-IsNumbered now k can_write body user t t' disk content e given numbered =
      let (doc, there, writable, edited) =
        update_document-Edited storage_root uuid_text now k can_write body user t e in
      let (saved, row, same, text, fresh, added, more, count, owned, above, highest) =
        Edited-Saved now can_write body user t t' doc content given numbered edited in
      (
        doc, there, writable, saved, row, same, text, fresh, added, more, count, owned, above,
        highest,
      )
