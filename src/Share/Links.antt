-- ===== src/Share/Links.antt =====
-- What a share link of backend/app/routers/share.py stands for, and that its maker can revoke it.
use mathlib.Core.Path.{subst}
use local_ai_search.Prelude.{
  ℕ, ◌+◌, ◌*◌, ◌<◌, ◌≤◌, ◌≡◌, refl, ap, true, false, not, ◌||◌, Option, none, some, List, [], ◌∷◌,
  ◌++◌, Text, codes, arith, is_some,
}
use local_ai_search.Models.{User, Document, File}
use local_ai_search.Session.{reply, found, required, found_row, answered, reply-injective}
use local_ai_search.Permissions.{is_admin}
use local_ai_search.Versioning.{file_of}
use local_ai_search.Documents.{Tables, live_document, may_write}
use local_ai_search.Share.{
  ShareLink, SystemSetting, ShareLinkCreate, Upload, share_enabled, share_disabled,
  share_server_url, share_server_api_key, is_empty, has_password, parse_expires_in, day, hash_of,
  hash_password, upload_to_share_server, new_link, create_share_link,
}

parse_expires_in-bounds :
    (now : ℕ) (expires_in : Text)
    → (now < parse_expires_in now expires_in) × (parse_expires_in now expires_in ≤ now + 30 * day)
unfolding parse_expires_in
parse_expires_in-bounds now expires_in = ground arith

is_empty-append : (s t : Text) (c : ℕ) → is_empty (s ++ c ∷ t) ≡ false
is_empty-append [] t c = refl
is_empty-append (d ∷ s) t c = refl

-- A hash is sent exactly where there is a password.
hash_of-is_empty :
    (sha256 : Text → Text) (salt : Text) (password : Option Text)
    → is_empty (hash_of sha256 salt password) ≡ not (has_password password)
unfolding has_password hash_password
hash_of-is_empty sha256 salt none = refl
hash_of-is_empty sha256 salt (some []) = refl
hash_of-is_empty sha256 salt (some (c ∷ password)) =
    is_empty-append salt (sha256 (salt ++ c ∷ password)) 36

found-reply :
    (row : Option Text) (status : ℕ) {url : Text} → found row status ≡ reply url → row ≡ some url
found-reply none status e = cc
found-reply (some a) status {url} e = ap some (reply-injective a url e)

-- What stands for a password on the share server: nothing for none and for an empty one, and else the
-- salt and the digest of the salt and the password.
abbrev pub salted : (sha256 : Text → Text) (salt : Text) → (password : Option Text) → Text
salted sha256 salt none = []
salted sha256 salt (some []) = []
salted sha256 salt (some (c ∷ password)) = salt ++ (codes "$" ++ sha256 (salt ++ c ∷ password))

hash_of-salted :
    (sha256 : Text → Text) (salt : Text) (password : Option Text)
    → hash_of sha256 salt password ≡ salted sha256 salt password
unfolding has_password hash_password
hash_of-salted sha256 salt none = refl
hash_of-salted sha256 salt (some []) = refl
hash_of-salted sha256 salt (some (c ∷ password)) = refl

-- What the share server was given for the link; `hashed` stands for the password.
pub record Uploaded (post : Upload → Option Text) (hashed : Text) (doc : Document) (file : File)
    (link : ShareLink) : Type 0 where
  pub upload : Upload
  pub accepted : post upload ≡ some link.share_url
  pub token : upload.token ≡ link.token
  pub content : upload.file ≡ file.storage_path
  pub name : upload.filename ≡ doc.title
  pub until : upload.expires_at ≡ link.expires_at
  pub hash : upload.password_hash ≡ hashed
  pub locked : is_empty upload.password_hash ≡ not link.has_password

module _ (post : Upload → Option Text) where
  upload-Uploaded :
      (sha256 : Text → Text) (id now : ℕ) (token salt : Text) (body : ShareLinkCreate) (user : User)
      (settings : List SystemSetting) (t : Tables) (doc : Document) (file : File) (url : Text)
      → upload_to_share_server post doc file token
          (hash_of sha256 salt body.password)
          (parse_expires_in now body.expires_in)
          user.username
          settings
          t
        ≡ reply url
      → Uploaded post
          (salted sha256 salt body.password)
          doc
          file
          (new_link id now token body user doc url)
  unfolding upload_to_share_server
  upload-Uploaded sha256 id now token salt body user settings t doc file url e =
      let (_, e1) =
        required
          (not (is_empty (share_server_url settings) || is_empty (share_server_api_key settings)))
          503 _ e in
      let (_, e2) = required (is_some (t.store.disk file.storage_path)) 404 _ e1 in
      record {
        upload = _;
        accepted = found-reply (post _) 502 e2;
        token = refl;
        content = refl;
        name = refl;
        until = refl;
        hash = hash_of-salted sha256 salt body.password;
        locked = hash_of-is_empty sha256 salt body.password;
      }

-- Why the link could be made, and what it stands for.
abbrev pub Shares :
    (post : Upload → Option Text) (hashed : Text) (now : ℕ) (body : ShareLinkCreate) (user : User)
    (t : Tables)
    → (links : List ShareLink) → ShareLink × List ShareLink
    → Type 0
Shares post hashed now body user t links (link, links') =
    (doc : Document) × (file : File) × (live_document body.document_id t.db.documents ≡ some doc)
    × (may_write doc user t ≡ true)
    × (not doc.share_prohibited ≡ true)
    × ((is_admin user || user.can_share) ≡ true)
    × (file_of doc.id t.store.files ≡ some file)
    × Uploaded post hashed doc file link
    × (now < link.expires_at)
    × (link.expires_at ≤ now + 30 * day)
    × (link.document_id ≡ doc.id)
    × (link.created_by_id ≡ user.id)
    × (links' ≡ links ++ link ∷ [])

-- A share link is made only where sharing is not switched off, of a live document with a file that the
-- user may write, which is not barred from sharing, and only by administrators and users that may share. The
-- share server has then accepted an upload of that file with the link's token, address and time of expiry. In place
-- of a password, which the link says that it has, it was given the salt and the digest of the salt and the password;
-- without one, or with an empty one, the empty text. The link expires within 30 days, names the user as its maker,
-- and is one more row.
pub create_share_link-Shares :
    (post : Upload → Option Text) (sha256 : Text → Text) (id now : ℕ) (token salt : Text)
    (body : ShareLinkCreate) (user : User) (settings : List SystemSetting) (t : Tables)
    (links links' : List ShareLink) (link : ShareLink)
    → create_share_link post sha256 id now token salt body user settings t links
      ≡ reply (link, links')
    → (share_disabled (share_enabled settings) ≡ false)
      × Shares post (salted sha256 salt body.password) now body user t links (link, links')
unfolding create_share_link
create_share_link-Shares post sha256 id now token salt body user settings t links links' link e =
    let (on, e1) = required (not (share_disabled (share_enabled settings))) 403 _ e in
    let (doc, row, e2) = found_row (live_document body.document_id t.db.documents) 404 _ e1 in
    let (writable, e3) = required (may_write doc user t) 403 _ e2 in
    let (allowed, e4) = required (not doc.share_prohibited) 403 _ e3 in
    let (trusted, e5) = required (is_admin user || user.can_share) 403 _ e4 in
    let (file, stored, e6) = found_row (file_of doc.id t.store.files) 404 _ e5 in
    let (url, sent, e7) =
      answered
        (upload_to_share_server post doc file token (hash_of sha256 salt body.password)
          (parse_expires_in now body.expires_in) user.username settings t)
        _ e6 in
    let pair = reply-injective _ (link, links') e7 in
    let times = parse_expires_in-bounds now body.expires_in in
    let uploaded =
      upload-Uploaded post sha256 id now token salt body user settings t doc file url sent in
    (
      ground arith,
      subst (Shares post (salted sha256 salt body.password) now body user t links) pair (
        doc, file, row, writable, allowed, trusted, stored, uploaded, times.0, times.1, refl, refl,
        refl,
      ),
    )
