-- ===== src/Share/Tests.antt =====
-- The share links of backend/app/routers/share.py at a concrete document and server.
use local_ai_search.Prelude.{
  ◌≡◌, refl, true, false, some, Option, List, [], ◌∷◌, ◌++◌, Text, codes, length,
}
use local_ai_search.Models.{User, Document}
use local_ai_search.Session.{http_error, reply}
use local_ai_search.Permissions.{is_admin, can_access_document}
use local_ai_search.Permissions.Tests.{alice, memo}
use local_ai_search.Documents.{Tables}
use local_ai_search.Share.{
  ShareLink, SystemSetting, ShareLinkCreate, Upload, share_enabled, share_disabled,
  create_share_link,
}
use local_ai_search.Share.Links.{Shares, salted, create_share_link-Shares}

abbrev sharer : User
sharer = record alice { can_share = true }

abbrev bob : User
bob = record alice { id = 4 }

abbrev own_memo : Document
own_memo = record memo { owner_id = some 1 }

abbrev tables : Tables
tables = record {
  db = record {
    users = sharer ∷ [];
    groups = [];
    members = [];
    folders = [];
    documents = own_memo ∷ [];
    favorites = [];
    audit_logs = [];
  };
  store = record {
    versions = [];
    files =
        record {
          document_id = 3;
          filename = codes "memo";
          storage_path = codes "/s/memo";
          file_size = 4;
        }
        ∷ [];
    chunks = [];
    jobs = [];
    disk = λ path. some (codes "text");
  };
  tags = [];
  accesses = [];
}

abbrev settings : List SystemSetting
settings =
    record { key = codes "share_enabled"; value = codes "true" }
    ∷ record { key = codes "share_server_url"; value = codes "http://s" }
    ∷ record { key = codes "share_server_api_key"; value = codes "k" }
    ∷ []

abbrev body : ShareLinkCreate
body = record { document_id = 3; password = some (codes "pw"); expires_in = codes "1d" }

-- Its hash has the length of the text.
abbrev sha256 : Text → Text
sha256 s = length s ∷ []

abbrev post : Upload → Option Text
post upload = some (upload.server ++ codes "/" ++ upload.token)

abbrev made : ShareLink
made = record {
  id = 50;
  document_id = 3;
  token = codes "tok";
  has_password = true;
  expires_at = 86_400_000_009;
  share_url = codes "http://s/tok";
  created_by_id = 1;
  is_active = true;
}

abbrev old : List ShareLink
old = record made { id = 49 } ∷ []

makes :
    create_share_link post sha256 50 9 (codes "tok") (codes "ab") body sharer settings tables old
    ≡ reply (made, old ++ made ∷ [])
unfolding create_share_link can_access_document is_admin
makes = refl

-- Where the setting is missing, sharing is off.
off :
    create_share_link post sha256 50 9 (codes "tok") (codes "ab") body sharer [] tables old
    ≡ http_error 403
unfolding create_share_link
off = refl

create_share_link-Shares_example :
    (share_disabled (share_enabled settings) ≡ false)
    × Shares post
        (salted sha256 (codes "ab") body.password)
        9
        body
        sharer
        tables
        old
        (made, old ++ made ∷ [])
create_share_link-Shares_example =
    create_share_link-Shares post sha256 50 9 (codes "tok") (codes "ab") body sharer settings tables
      old (old ++ made ∷ []) made makes
