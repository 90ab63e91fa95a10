-- ===== src/Share.antt =====
-- backend/app/routers/share.py: the links to documents on an external share server, with `get_setting` of
-- backend/app/services/settings.py. The share server and the hash are parameters.
pub mod Links
mod Tests
use local_ai_search.Prelude.{
  ℕ, ◌+◌, ◌*◌, Bool, true, false, not, ◌&&◌, ◌||◌, Option, none, some, List, [], ◌∷◌, ◌++◌, map,
  codes, Text, text_eq, ltb, leb, ◌==◌, is_some, if◌then◌else◌, find?, update_where,
}
use local_ai_search.Models.{User, Document, File}
use local_ai_search.Session.{Reply, http_error, reply, ◌>>=◌, ◌>>◌, require, found}
use local_ai_search.Permissions.{is_admin}
use local_ai_search.Versioning.{file_of}
use local_ai_search.Documents.{Tables, live_document, may_write}

pub record ShareLink : Type 0 where
  pub id : ℕ
  pub document_id : ℕ
  pub token : Text
  pub has_password : Bool
  pub expires_at : ℕ
  pub share_url : Text
  pub created_by_id : ℕ
  pub is_active : Bool

pub record SystemSetting : Type 0 where
  pub key : Text
  pub value : Text

-- `default` is the value that `DEFAULTS` has for the key.
unfoldable pub get_setting : (key default : Text) → List SystemSetting → Text
get_setting key default settings = elim (find? (λ row. text_eq row.key key) settings) [
  | none ↦ default
  | some row ↦ row.value
]

abbrev pub share_enabled : List SystemSetting → Text
share_enabled = get_setting (codes "share_enabled") (codes "false")

abbrev pub share_server_url : List SystemSetting → Text
share_server_url = get_setting (codes "share_server_url") []

abbrev pub share_server_api_key : List SystemSetting → Text
share_server_api_key = get_setting (codes "share_server_api_key") []

-- `str.lower`, as far as a comparison with "false" tells
abbrev pub lower : ℕ → ℕ
lower c = if leb 65 c && leb c 90 then c + 32 else c

abbrev pub is_empty : Text → Bool
is_empty [] = true
is_empty (c ∷ s) = false

-- `enabled and enabled.lower() == "false"`
unfoldable pub share_disabled : (enabled : Text) → Bool
share_disabled enabled = not (is_empty enabled) && text_eq (map lower enabled) (codes "false")

-- The request's body; a missing password is none.
pub record ShareLinkCreate : Type 0 where
  pub document_id : ℕ
  pub password : Option Text
  pub expires_in : Text

abbrev pub hour : ℕ
hour = 3_600_000_000

abbrev pub day : ℕ
day = 86_400_000_000

unfoldable pub parse_expires_in : (now : ℕ) → (expires_in : Text) → ℕ
parse_expires_in now expires_in =
    now
    + (if text_eq expires_in (codes "1h")
        then hour
        else if text_eq expires_in (codes "1d")
        then day
        else if text_eq expires_in (codes "7d")
        then 7 * day
        else if text_eq expires_in (codes "30d")
        then 30 * day
        else 7 * day)

-- What is sent to the share server.
pub record Upload : Type 0 where
  pub server : Text
  pub api_key : Text
  -- the name and the path of the file
  pub file_name : Text
  pub file : Text
  pub token : Text
  pub filename : Text
  pub file_type : Text
  pub password_hash : Text
  pub expires_at : ℕ
  pub created_by : Text

-- `if body.password`
unfoldable pub has_password : Option Text → Bool
has_password none = false
has_password (some password) = not (is_empty password)

-- `sha256` gives the hexadecimal digest.
module _ (sha256 : Text → Text) where
  unfoldable pub hash_password : (salt password : Text) → Text
  hash_password salt password = salt ++ (codes "$" ++ sha256 (salt ++ password))

  abbrev pub hash_of : (salt : Text) → Option Text → Text
  unfolding has_password hash_password
  hash_of salt none = []
  hash_of salt (some password) =
      if has_password (some password) then hash_password salt password else []

abbrev pub new_link :
    (id now : ℕ) (token : Text) → ShareLinkCreate → User → Document → (url : Text) → ShareLink
new_link id now token body user doc url = record {
  id = id;
  document_id = doc.id;
  token = token;
  has_password = has_password body.password;
  expires_at = parse_expires_in now body.expires_in;
  share_url = url;
  created_by_id = user.id;
  is_active = true;
}

-- `post` is the share server: the URL that it gives where it answers 201.
module _ (post : Upload → Option Text) where
  unfoldable pub upload_to_share_server :
      Document
      → File
      → (token password_hash : Text) → (expires_at : ℕ) → (username : Text) → List SystemSetting
      → Tables
      → Reply Text
  unfolding get_setting
  upload_to_share_server doc file token password_hash expires_at username settings t =
      let url = share_server_url settings in
      let api_key = share_server_api_key settings in
      require (not (is_empty url || is_empty api_key)) 503
      >> (require (is_some (t.store.disk file.storage_path)) 404
          >> found
              (post (record {
                server = url;
                api_key = api_key;
                file_name = file.filename;
                file = file.storage_path;
                token = token;
                filename = doc.title;
                file_type = doc.file_type;
                password_hash = password_hash;
                expires_at = expires_at;
                created_by = username;
              }))
              502)

  -- `id`, `token` and `salt` are the new identifiers and secrets.
  unfoldable pub create_share_link :
      (sha256 : Text → Text) (id now : ℕ) (token salt : Text)
      → ShareLinkCreate
      → User
      → List SystemSetting
      → Tables
      → List ShareLink
      → Reply (ShareLink × List ShareLink)
  unfolding share_disabled get_setting upload_to_share_server live_document file_of parse_expires_in
      has_password
  create_share_link sha256 id now token salt body user settings t links =
      require (not (share_disabled (share_enabled settings))) 403
      >> (found (live_document body.document_id t.db.documents) 404 >>= λ doc.
          require (may_write doc user t) 403
          >> (require (not doc.share_prohibited) 403
              >> (require (is_admin user || user.can_share) 403
                  >> (found (file_of doc.id t.store.files) 404 >>= λ file.
                      upload_to_share_server doc file token (hash_of sha256 salt body.password)
                        (parse_expires_in now body.expires_in) user.username settings t
                      >>= λ url.
                          let link = new_link id now token body user doc url in
                          reply (link, links ++ link ∷ [])))))

abbrev pub revoked : ShareLink → ShareLink
revoked link = record link { is_active = false }

-- The token whose deletion is asked of the share server, if one is configured; what the server
-- answers is ignored.
unfoldable pub delete_from_share_server : (token : Text) → List SystemSetting → Option Text
unfolding get_setting
delete_from_share_server token settings =
    if is_empty (share_server_url settings) || is_empty (share_server_api_key settings)
    then none
    else some token

unfoldable pub delete_share_link :
    (link_id : ℕ)
    → User
    → List SystemSetting
    → List ShareLink
    → Reply (List ShareLink × Option Text)
unfolding delete_from_share_server
delete_share_link link_id user settings links =
    found (find? (λ l. l.id == link_id) links) 404 >>= λ link.
    require ((link.created_by_id == user.id) || is_admin user) 403
    >> reply (
      update_where (λ l. l.id == link_id) revoked links,
      delete_from_share_server link.token settings,
    )
