-- ===== src/Auth/Tests.antt =====
-- Tokens, keys and logins at concrete rows, with a table of expiry times for Redis
-- (backend/app/routers/auth.py, backend/app/deps.py).
use local_ai_search.Prelude.{
  ℕ, ◌+◌, ◌*◌, ◌/◌, ◌≤◌, ◌≡◌, ◌≢◌, ◌⊎◌, refl, sym, ◌∙◌, Bool, true, false, Option, none, some, [],
  ◌∷◌, Text, codes, text_eq, text_eq_iff, ltb, leb, if◌then◌else◌, In, inl, inr, arith, Bool-cases,
}
use mathlib.Core.Bool.{false≢true}
use mathlib.Core.Option.{some-injective}
use local_ai_search.Models.{User, ApiKey, AuditLog}
use local_ai_search.Session.{http_error, reply, get_db}
use local_ai_search.Auth.{
  Payload, Redis, AuthDb, second, verify_token, get_current_user, try_api_key_auth, logout, refresh,
  revoke,
}
use local_ai_search.Auth.Blacklist.{revoke_all}
use local_ai_search.Auth.Revocation.{logout-get_current_user, logout-refresh}
use local_ai_search.Auth.Keys.{KeyUse, try_api_key_auth-KeyUse, get_current_user-active}
use local_ai_search.Auth.Login.{authenticate_user, LoggedIn, log_in, login, login-outcome}

-- Each key's time of expiry.
abbrev table : Redis
table = record {
  State = Text → ℕ;
  set = λ now ttl key s. λ k. if text_eq k key then now + ttl * 1_000_000 else s k;
  exists = λ now key s. ltb now (s key);
  exists-set = λ now ttl later key s p. rw ((text_eq_iff key key).1 refl);
  exists-set_other = λ now ttl later key other s differ.
      let t : text_eq other key ≡ false = ground (arith, text_eq_iff other key) in rw t;
}

abbrev session : Payload
session = record {
  sub = some (codes "9");
  exp = 100;
  token_type = codes "access";
  jti = some (codes "j1");
}

abbrev renewal : Payload
renewal = record {
  sub = some (codes "9");
  exp = 900;
  token_type = codes "refresh";
  jti = some (codes "j2");
}

-- Two tokens, each refused when its time is over.
abbrev decode : (now : ℕ) → Text → Option Payload
decode now token =
    if text_eq token (codes "h.s.x")
    then (if leb (now / second) 100 then some session else none)
    else if text_eq token (codes "h.r.x")
    then (if leb (now / second) 900 then some renewal else none)
    else none

when-some :
    (b : Bool) (s p : Payload) → (if b then some s else none) ≡ some p → (b ≡ true) × (p ≡ s)
when-some true s p e = (refl, sym (some-injective s p e))
when-some false s p e = cc

-- What a token is decoded to.
decoded :
    (now : ℕ) (token : Text) (p : Payload)
    → decode now token ≡ some p
    → (now / second ≤ p.exp) × (p ≡ (if text_eq token (codes "h.s.x") then session else renewal))
decoded now token p e = elim (Bool-cases (text_eq token (codes "h.s.x"))) [
  | inl t ↦
      let (in_time, same) = when-some (leb (now / second) 100) session p (rw t at e) in
      rw t (rw same (ground arith), same)
  | inr t ↦ elim (Bool-cases (text_eq token (codes "h.r.x"))) [
    | inl t' ↦
        let (in_time, same) = when-some (leb (now / second) 900) renewal p (rw (t, t') at e) in
        rw t (rw same (ground arith), same)
    | inr t' ↦ absurd (let n = rw (t, t') at e in cc)
  ]
]

decode-expires :
    (now : ℕ) (token : Text) (p : Payload) → decode now token ≡ some p → now / second ≤ p.exp
decode-expires now token p e = (decoded now token p e).0

decode-stable :
    (now later : ℕ) (token : Text) (p q : Payload)
    → decode now token ≡ some p
    → decode later token ≡ some q
    → q ≡ p
decode-stable now later token p q e e' =
    (decoded later token q e').1 ∙ sym (decoded now token p e).1

abbrev parse : Text → Option ℕ
parse s = some 9

abbrev digest : Text → Text
digest s = codes "digest"

abbrev ann : User
ann = record {
  id = 9;
  username = codes "ann";
  hashed_password = codes "secret";
  is_active = true;
  can_share = false;
  last_login_at = none;
  unix_uid = none;
  roles = [];
}

abbrev key : ApiKey
key = record {
  id = 1;
  key_hash = codes "digest";
  owner_id = 9;
  permissions = codes "upload";
  is_active = true;
  expires_at = some 50;
  last_used_at = none;
}

abbrev db : AuthDb
db = record { users = ann ∷ []; api_keys = key ∷ []; audit_logs = [] }

abbrev empty : table.State
empty = λ k. 0

-- The tokens let in before the logout.
welcome :
    get_current_user table decode parse digest true 5 (codes "h.s.x") empty db
    ≡ reply (ann, none, db)
unfolding get_current_user verify_token
welcome = refl

abbrev revoked : table.State
revoked = revoke table 7 (session ∷ renewal ∷ []) empty

logged_out :
    logout table decode parse digest true 7 (some (codes "h.s.x")) (some (codes "h.r.x")) empty db
    ≡ reply (
      revoked,
      record db {
        audit_logs = record { user_id = some 9; action = codes "logout"; target_id = none } ∷ [];
      },
    )
unfolding logout verify_token
logged_out = refl

is_session : verify_token decode 7 (codes "h.s.x") (codes "access") ≡ some session
unfolding verify_token
is_session = refl

is_renewal : verify_token decode 7 (codes "h.r.x") (codes "refresh") ≡ some renewal
unfolding verify_token
is_renewal = refl

two_tokens : codes "j1" ≢ codes "j2"
two_tokens e = false≢true ((text_eq_iff (codes "j1") (codes "j2")).1 e)

logout-get_current_user_example :
    let answer = λ (up : Bool).
      get_current_user table decode parse digest up 90
        (codes "h.s.x")
        (revoke_all table [] revoked)
        db in
    (answer true ≡ http_error 401) × ((status : ℕ) × (answer false ≡ http_error status))
logout-get_current_user_example =
    logout-get_current_user table decode decode-expires decode-stable parse digest true 7 90
      (codes "h.s.x") (some (codes "h.r.x")) [] empty revoked db _ db session b'j' (codes "1") refl
      is_session refl
      (unfold verify_token in
        ((λ e. refl), ((λ e. absurd (two_tokens (sym (some-injective _ _ e)))), tt)))
      tt (omega arith) logged_out

logout-refresh_example :
    let answer = λ (up : Bool).
      refresh table decode parse digest up 90 60
        (codes "j3")
        (codes "h.r.x")
        (revoke_all table [] revoked) in
    (answer true ≡ http_error 401) × ((status : ℕ) × (answer false ≡ http_error status))
logout-refresh_example =
    logout-refresh table decode decode-expires decode-stable parse digest true 7 90 60 (codes "j3")
      b'h' (codes ".r.x") (some (codes "h.s.x")) [] empty revoked db _ renewal b'j' (codes "2")
      is_renewal refl
      (unfold verify_token in
        ((λ e. absurd (two_tokens (some-injective _ _ e))), ((λ e. refl), tt)))
      tt (omega arith) logged_out

by_key :
    try_api_key_auth digest 20 (codes "las_k") db
    ≡ some (ann, key, record db { api_keys = record key { last_used_at = some 20 } ∷ [] })
unfolding try_api_key_auth
by_key = refl

try_api_key_auth-KeyUse_example :
    KeyUse digest 20
      (codes "las_k")
      db
      ann
      key
      (record db { api_keys = record key { last_used_at = some 20 } ∷ [] })
try_api_key_auth-KeyUse_example =
    try_api_key_auth-KeyUse digest 20 (codes "las_k") db ann key _ by_key

get_current_user-active_example : In ann (ann ∷ []) × (ann.is_active ≡ true)
get_current_user-active_example =
    get_current_user-active table decode parse digest true 5 (codes "h.s.x") empty db db ann none
      welcome

login-outcome_example :
    (LoggedIn text_eq
      (λ u. codes "9")
      5
      60
      600
      (codes "ann")
      (codes "guess")
      db
      (login text_eq
        (λ u. codes "9")
        5
        60
        600
        (codes "a")
        (codes "r")
        (codes "ann")
        (codes "guess")
        db))
    ⊎ ((authenticate_user text_eq (λ u. codes "9") (codes "ann") (codes "guess") (ann ∷ []) ≡ none)
        × (entry : AuditLog) × (entry.action ≡ codes "login.failed")
        × ((log_in text_eq
              (λ u. codes "9")
              5
              60
              600
              (codes "a")
              (codes "r")
              (authenticate_user text_eq (λ u. codes "9") (codes "ann") (codes "guess") (ann ∷ []))
              db).1.audit_logs
            ≡ entry ∷ [])
        × (login text_eq
              (λ u. codes "9")
              5
              60
              600
              (codes "a")
              (codes "r")
              (codes "ann")
              (codes "guess")
              db
            ≡ (http_error 401, db)))
login-outcome_example =
    login-outcome text_eq (λ u. codes "9") 5 60 600 (codes "a") (codes "r") (codes "ann")
      (codes "guess") db

wrong_password :
    login text_eq (λ u. codes "9") 5 60 600 (codes "a") (codes "r") (codes "ann") (codes "guess") db
    ≡ (http_error 401, db)
unfolding login authenticate_user get_db
wrong_password = refl
