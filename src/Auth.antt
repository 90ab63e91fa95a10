-- ===== src/Auth.antt =====
-- Tokens and API keys: backend/app/services/auth.py, backend/app/deps.py, and the login, refresh and
-- logout endpoints of backend/app/routers/auth.py. Times are microseconds, except `exp` and the
-- lifetimes of keys in Redis, which are seconds. The libraries (jose, bcrypt, hashlib, uuid) and
-- Redis are parameters.
pub mod Blacklist
pub mod Revocation
pub mod Keys
pub mod Login
mod Tests
use local_ai_search.Prelude.{
  ℕ, ◌+◌, ◌-◌, ◌*◌, ◌/◌, max, ltb, Bool, true, false, not, ◌&&◌, ◌||◌, Option, none, some, List, [],
  ◌∷◌, ◌++◌, Text, codes, text_eq, contains, find?, update_where, ◌==◌, if◌then◌else◌, ◌≡◌, ◌≢◌,
  ◌≤◌,
}
use local_ai_search.Models.{User, AuditLog, ApiKey}
use local_ai_search.Session.{Reply, http_error, reply, ◌>>=◌, ◌>>◌, require, found}

-- The claims of a token; `exp` is in every token that the server makes.
pub record Payload : Type 0 where
  pub sub : Option Text
  pub exp : ℕ
  pub token_type : Text
  pub jti : Option Text

-- The part of Redis that the server uses here. A key that is set with a lifetime is there until the
-- lifetime is over, and setting one key leaves the others.
pub record Redis : Type 1 where
  pub State : Type 0
  pub set : (now ttl : ℕ) (key : Text) → State → State
  pub exists : (now : ℕ) (key : Text) → State → Bool
  pub exists-set :
      (now ttl later : ℕ) (key : Text) (s : State)
      → now ≤ later
      → exists later key (set now ttl key s) ≡ ltb later (now + ttl * 1_000_000)
  pub exists-set_other :
      (now ttl later : ℕ) (key other : Text) (s : State)
      → other ≢ key
      → exists later other (set now ttl key s) ≡ exists later other s

-- The rows that the calls reach.
pub record AuthDb : Type 0 where
  pub users : List User
  pub api_keys : List ApiKey
  pub audit_logs : List AuditLog

abbrev pub second : ℕ
second = 1_000_000

abbrev pub active_user : (user_id : ℕ) → List User → Option User
active_user user_id = find? (λ u. (u.id == user_id) && u.is_active)

-- `if key.expires_at and key.expires_at < now`
abbrev pub is_expired : (now : ℕ) → Option ℕ → Bool
is_expired now none = false
is_expired now (some t) = ltb t now

-- `last_used_at is None or (now - last_used_at).total_seconds() > 60`
abbrev pub is_due : (now : ℕ) → Option ℕ → Bool
is_due now none = true
is_due now (some t) = ltb (60 * second) (now - t)

abbrev pub touch : (now : ℕ) → ApiKey → List ApiKey → List ApiKey
touch now key keys =
    if is_due now key.last_used_at
    then update_where (λ k. k.id == key.id) (λ k. record k { last_used_at = some now }) keys
    else keys

abbrev pub revoked_key : Text → Text
revoked_key jti = codes "blacklist:" ++ jti

-- `math.ceil(exp - now)`, at least 0, and a minute
abbrev pub lifetime : (now exp : ℕ) → ℕ
lifetime now exp = (exp * second - now + 999_999) / second + 60

-- A payload of the expected type.
abbrev pub of_type : Text → Option Payload → Option Payload
of_type expected none = none
of_type expected (some p) = if text_eq p.token_type expected then some p else none

-- `if p.get("jti")`, and `if body and body.refresh_token`
abbrev pub given : Option Text → Bool
given none = false
given (some []) = false
given (some (c ∷ s)) = true

-- `if p and p.get("jti"): payloads.append(p)`
abbrev pub with_jti : Option Payload → List Payload
with_jti none = []
with_jti (some p) = if given p.jti then p ∷ [] else []

-- `create_access_token` and `create_refresh_token`, with the settings' lifetime in seconds and the fresh
-- UUID of the token.
unfoldable pub new_payload : (now seconds : ℕ) (token_type jti subject : Text) → Payload
new_payload now seconds token_type jti subject = record {
  sub = some subject;
  exp = now / second + seconds;
  token_type = token_type;
  jti = some jti;
}

module _ (redis : Redis) where
  -- `jti and await r.exists(f"blacklist:{jti}")`
  abbrev pub is_revoked : (now : ℕ) → Option Text → redis.State → Bool
  is_revoked now none r = false
  is_revoked now (some []) r = false
  is_revoked now (some (c ∷ jti)) r = redis.exists now (revoked_key (c ∷ jti)) r

  abbrev pub set_revoked : (now : ℕ) → (exp : ℕ) → Option Text → redis.State → redis.State
  set_revoked now exp none r = r
  set_revoked now exp (some jti) r = redis.set now (lifetime now exp) (revoked_key jti) r

  unfoldable pub revoke : (now : ℕ) → List Payload → redis.State → redis.State
  revoke now [] r = r
  revoke now (p ∷ payloads) r = revoke now payloads (set_revoked now p.exp p.jti r)

module _ (jwt_decode : (now : ℕ) → Text → Option Payload) where
  unfoldable pub verify_token : (now : ℕ) → Text → (expected_type : Text) → Option Payload
  verify_token now token expected_type = of_type expected_type (jwt_decode now token)

  -- The access token of the header, which is no API key, and the refresh token of the body.
  abbrev pub access_payloads : (now : ℕ) → (credentials : Option Text) → List Payload
  access_payloads now none = []
  access_payloads now (some token) =
      if contains token b'.' then with_jti (verify_token now token (codes "access")) else []

  abbrev pub refresh_payloads : (now : ℕ) → (refresh_token : Option Text) → List Payload
  refresh_payloads now none = []
  refresh_payloads now (some []) = []
  refresh_payloads now (some (c ∷ token)) =
      with_jti (verify_token now (c ∷ token) (codes "refresh"))

-- The parts of `_try_api_key_auth` behind the lookup of the owner, and of the key.
abbrev pub use_key : (now : ℕ) → AuthDb → ApiKey → Option User → Option (User × ApiKey × AuthDb)
use_key now db key none = none
use_key now db key (some user) =
    some (user, key, record db { api_keys = touch now key db.api_keys })

abbrev pub check_expiry : (now : ℕ) → AuthDb → Option ApiKey → Option (User × ApiKey × AuthDb)
check_expiry now db none = none
check_expiry now db (some key) =
    if is_expired now key.expires_at
    then none
    else use_key now db key (active_user key.owner_id db.users)

module _ (sha256 : Text → Text) where
  -- The key of the token, its owner, and the table with the time of use.
  unfoldable pub try_api_key_auth : (now : ℕ) → Text → AuthDb → Option (User × ApiKey × AuthDb)
  try_api_key_auth now token db =
      if contains token b'.'
      then none
      else check_expiry now db
          (find? (λ k. text_eq k.key_hash (sha256 token) && k.is_active) db.api_keys)

module _ (redis : Redis) (jwt_decode : (now : ℕ) → Text → Option Payload)
    (parse_uuid : Text → Option ℕ) (sha256 : Text → Text) where
  -- `uuid.UUID(payload["sub"])`
  abbrev pub subject_id : Option Text → Option ℕ
  subject_id none = none
  subject_id (some sub) = parse_uuid sub

  -- "JWT flow"
  abbrev pub jwt_user :
      (reachable : Bool) (now : ℕ)
      → Text
      → redis.State
      → AuthDb
      → Reply (User × Option ApiKey × AuthDb)
  jwt_user reachable now token r db =
      found (verify_token jwt_decode now token (codes "access")) 401 >>= λ p.
      require (reachable || not (given p.jti)) 500
      >> (require (not (is_revoked redis now p.jti r)) 401
          >> (found (subject_id p.sub) 401 >>= λ user_id.
              found (active_user user_id db.users) 401 >>= λ user. reply (user, none, db)))

  -- "Try API key first"
  abbrev pub key_user : (now : ℕ) → Text → AuthDb → Reply (User × Option ApiKey × AuthDb)
  key_user now token db = found (try_api_key_auth sha256 now token db) 401 >>= λ (user, key, db').
      reply (user, some key, db')

  -- The user of the request, with the key if it came with one, and the rows. `reachable` says whether
  -- Redis answers: its exception, where it is asked and does not, is a server error.
  unfoldable pub get_current_user :
      (reachable : Bool) (now : ℕ)
      → Text
      → redis.State
      → AuthDb
      → Reply (User × Option ApiKey × AuthDb)
  get_current_user reachable now token r db =
      if contains token b'.' then jwt_user reachable now token r db else key_user now token db

  abbrev logged_out : Option ℕ → AuditLog
  logged_out user_id = record { user_id = user_id; action = codes "logout"; target_id = none }

  abbrev user_id_of : Option ℕ → List User → Option ℕ
  user_id_of none users = none
  user_id_of (some user_id) users = elim (find? (λ u. u.id == user_id) users) [
    | none ↦ none
    | some u ↦ some u.id
  ]

  -- The revocation and the entry of the log, if there is a token to revoke.
  abbrev pub log_out :
      (reachable : Bool) (now : ℕ)
      → List Payload
      → redis.State
      → AuthDb
      → Reply (redis.State × AuthDb)
  log_out reachable now [] r db = reply (r, db)
  log_out reachable now (p ∷ payloads) r db =
      require reachable 503
      >> reply (
        revoke redis now (p ∷ payloads) r,
        record db {
          audit_logs = db.audit_logs ++ logged_out (user_id_of (subject_id p.sub) db.users) ∷ [];
        },
      )

  -- `reachable` says whether Redis answers.
  unfoldable pub logout :
      (reachable : Bool) (now : ℕ) (credentials refresh_token : Option Text)
      → redis.State
      → AuthDb
      → Reply (redis.State × AuthDb)
  logout reachable now credentials refresh_token r db =
      log_out reachable now
        (access_payloads jwt_decode now credentials
          ++ refresh_payloads jwt_decode now refresh_token)
        r db

  -- The payload of the new access token; `jti` is its fresh UUID, and a token without a subject is a
  -- server error.
  unfoldable pub refresh :
      (reachable : Bool) (now seconds : ℕ) (jti refresh_token : Text) → redis.State → Reply Payload
  refresh reachable now seconds jti refresh_token r =
      found (verify_token jwt_decode now refresh_token (codes "refresh")) 401 >>= λ p.
      require (reachable || not (given p.jti)) 500
      >> (require (not (is_revoked redis now p.jti r)) 401
          >> (found p.sub 500 >>= λ subject.
              reply (new_payload now seconds (codes "access") jti subject)))
