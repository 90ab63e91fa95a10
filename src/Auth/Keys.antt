-- ===== src/Auth/Keys.antt =====
-- Whom `get_current_user` lets in (backend/app/deps.py).
use mathlib.Core.Path.{subst}
use mathlib.Core.Option.{some-injective}
use local_ai_search.Prelude.{
  ℕ, ◌≡◌, refl, Bool, true, false, not, ◌&&◌, ◌||◌, Option, none, some, List, Text, codes, text_eq,
  text_eq_iff, contains, arith, In, In-find?, find?, find?-test, Bool-cases, inl, inr, ◌==◌,
}
use local_ai_search.Models.{User, ApiKey}
use local_ai_search.Session.{reply, found_row, required, reply-injective}
use local_ai_search.Auth.{
  Payload, Redis, AuthDb, active_user, is_expired, touch, is_revoked, given, verify_token,
  subject_id, use_key, check_expiry, try_api_key_auth, jwt_user, get_current_user,
}

active_user-In :
    (user_id : ℕ) (users : List User) {user : User}
    → active_user user_id users ≡ some user
    → In user users × (user.id ≡ user_id) × (user.is_active ≡ true)
active_user-In user_id users {user} e =
    let t = find?-test (λ u. (u.id == user_id) && u.is_active) users e in
    (In-find? (λ u. (u.id == user_id) && u.is_active) users e, ground arith, ground arith)

-- A key lets its user in only if it stands in the table with the hash of the token, is active and not
-- expired, and the user is its active owner; no other row than the key's time of use is written.
pub record KeyUse (sha256 : Text → Text) (now : ℕ) (token : Text) (db : AuthDb) (user : User)
    (key : ApiKey) (db' : AuthDb) : Type 0 where
  pub no_dot : contains token b'.' ≡ false
  pub stored : In key db.api_keys
  pub hashed : key.key_hash ≡ sha256 token
  pub active : key.is_active ≡ true
  pub in_time : is_expired now key.expires_at ≡ false
  pub owner : In user db.users
  pub owner_id : user.id ≡ key.owner_id
  pub owner_active : user.is_active ≡ true
  pub touched : db' ≡ record db { api_keys = touch now key db.api_keys }

use_key-some :
    (now : ℕ) (db : AuthDb) (key : ApiKey) (owner : Option User) {x : User × ApiKey × AuthDb}
    → use_key now db key owner ≡ some x
    → (user : User) × (owner ≡ some user)
      × ((user, key, record db { api_keys = touch now key db.api_keys }) ≡ x)
use_key-some now db key none e = cc
use_key-some now db key (some user) {x} e = (user, refl, some-injective _ x e)

check_expiry-some :
    (now : ℕ) (db : AuthDb) (row : Option ApiKey) {x : User × ApiKey × AuthDb}
    → check_expiry now db row ≡ some x
    → (key : ApiKey) × (row ≡ some key)
      × (is_expired now key.expires_at ≡ false)
      × (use_key now db key (active_user key.owner_id db.users) ≡ some x)
check_expiry-some now db none e = cc
check_expiry-some now db (some key) e = elim (Bool-cases (is_expired now key.expires_at)) [
  | inl t ↦ absurd (let n = rw t at e in cc)
  | inr t ↦ (key, refl, t, rw t at e)
]

-- Whoever comes in by an API key: the token has no dot, the key is in the table under the token's hash,
-- active and not expired, the user is its owner and active, and only the key's time of use is written.
pub try_api_key_auth-KeyUse :
    (sha256 : Text → Text) (now : ℕ) (token : Text) (db : AuthDb) (user : User) (key : ApiKey)
    (db' : AuthDb)
    → try_api_key_auth sha256 now token db ≡ some (user, key, db')
    → KeyUse sha256 now token db user key db'
unfolding try_api_key_auth
try_api_key_auth-KeyUse sha256 now token db user key db' e =
    elim (Bool-cases (contains token b'.')) [
      | inl dot ↦ absurd (let n = rw dot at e in cc)
      | inr no_dot ↦
          let test : ApiKey → Bool = λ k. text_eq k.key_hash (sha256 token) && k.is_active in
          let (k, row, in_time, used) =
            check_expiry-some now db (find? test db.api_keys) (rw no_dot at e) in
          let (u, owner, same) = use_key-some now db k _ used in
          let (member, owner_id, active) = active_user-In k.owner_id db.users owner in
          let passed = find?-test test db.api_keys row in
          let use_of_k : KeyUse sha256 now token db u k
              (record db { api_keys = touch now k db.api_keys }) =
            record {
              no_dot = no_dot;
              stored = In-find? test db.api_keys row;
              hashed = (text_eq_iff k.key_hash (sha256 token)).0 (ground arith);
              active = ground arith;
              in_time = in_time;
              owner = member;
              owner_id = owner_id;
              owner_active = active;
              touched = refl;
            } in
          subst (λ (x : User × ApiKey × AuthDb). KeyUse sha256 now token db x.0 x.1 x.2) same
            use_of_k
    ]

module _ (redis : Redis) (jwt_decode : (now : ℕ) → Text → Option Payload)
    (parse_uuid : Text → Option ℕ) (sha256 : Text → Text) where
  jwt_user-active :
      (reachable : Bool) (now : ℕ) (token : Text) (r : redis.State) (db : AuthDb)
      {x : User × Option ApiKey × AuthDb}
      → jwt_user redis jwt_decode parse_uuid sha256 reachable now token r db ≡ reply x
      → In x.0 db.users × (x.0.is_active ≡ true)
  jwt_user-active reachable now token r db {x} e =
      let (p, valid, e1) = found_row (verify_token jwt_decode now token (codes "access")) 401 _ e in
      let (_, e1') = required (reachable || not (given p.jti)) 500 _ e1 in
      let (kept, e2) = required (not (is_revoked redis now p.jti r)) 401 _ e1' in
      let (user_id, parsed, e3) =
        found_row (subject_id redis jwt_decode parse_uuid sha256 p.sub) 401 _ e2 in
      let (user, row, e4) = found_row (active_user user_id db.users) 401 _ e3 in
      let (member, same_id, active) = active_user-In user_id db.users row in
      subst (λ (y : User × Option ApiKey × AuthDb). In y.0 db.users × (y.0.is_active ≡ true))
        (reply-injective (user, none, db) x e4) (member, active)

  -- Whatever the token, the user of an answered request stands in the table and is active.
  pub get_current_user-active :
      (reachable : Bool) (now : ℕ) (token : Text) (r : redis.State) (db db' : AuthDb) (user : User)
      (key : Option ApiKey)
      → get_current_user redis jwt_decode parse_uuid sha256 reachable now token r db
        ≡ reply (user, key, db')
      → In user db.users × (user.is_active ≡ true)
  unfolding get_current_user
  get_current_user-active reachable now token r db db' user key e =
      elim (Bool-cases (contains token b'.')) [
        | inl dot ↦ jwt_user-active reachable now token r db (rw dot at e)
        | inr no_dot ↦
            let ((u, k, d), row, e1) =
              found_row (try_api_key_auth sha256 now token db) 401 _ (rw no_dot at e) in
            let use_of_k = try_api_key_auth-KeyUse sha256 now token db u k d row in
            subst (λ (y : User × Option ApiKey × AuthDb). In y.0 db.users × (y.0.is_active ≡ true))
              (reply-injective (u, some k, d) (user, key, db') e1)
              (use_of_k.owner, use_of_k.owner_active)
      ]
