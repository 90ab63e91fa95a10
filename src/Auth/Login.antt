-- ===== src/Auth/Login.antt =====
-- `authenticate_user` of backend/app/services/auth.py and the login endpoint of
-- backend/app/routers/auth.py. What the endpoint tells the mail, webhook and Samba services is left out.
use local_ai_search.Prelude.{
  ℕ, ◌+◌, ◌/◌, ◌≡◌, ◌⊎◌, refl, sym, ap, ◌∙◌, Bool, true, ◌&&◌, Option, none, some, List, [], ◌∷◌,
  ◌++◌, Text, codes, text_eq, text_eq_iff, arith, find?, find?-test, In, In-find?, update_where,
  ◌==◌, if◌then◌else◌, Bool-cases, Option-cases, inl, inr,
}
use mathlib.Core.Option.{some-injective}
use local_ai_search.Models.{User, AuditLog}
use local_ai_search.Session.{Reply, http_error, reply, get_db}
use local_ai_search.Auth.{Payload, AuthDb, second, new_payload}

-- `audit_log`, whose entry is flushed and not yet committed.
abbrev pub audit_log : Option ℕ → (action : Text) → AuthDb → AuthDb
audit_log user_id action db = record db {
  audit_logs =
      db.audit_logs ++ record { user_id = user_id; action = action; target_id = none } ∷ [];
}

-- bcrypt's test of a password, and `str(user.id)`
module _ (checkpw : (password hashed : Text) → Bool) (uuid_text : ℕ → Text) where
  abbrev pub with_password : Text → Option User → Option User
  with_password password none = none
  with_password password (some user) =
      if checkpw password user.hashed_password then some user else none

  unfoldable pub authenticate_user : (username password : Text) → List User → Option User
  authenticate_user username password users =
      with_password password (find? (λ u. text_eq u.username username && u.is_active) users)

  -- The lifetimes are in seconds, and the `jti`s are fresh UUIDs.
  abbrev pub log_in :
      (now access_seconds refresh_seconds : ℕ) (access_jti refresh_jti : Text)
      → Option User
      → AuthDb
      → Reply (Payload × Payload) × AuthDb
  log_in now access_seconds refresh_seconds access_jti refresh_jti none db =
      (http_error 401, audit_log none (codes "login.failed") db)
  log_in now access_seconds refresh_seconds access_jti refresh_jti (some user) db = (
    reply (
      new_payload now access_seconds (codes "access") access_jti (uuid_text user.id),
      new_payload now refresh_seconds (codes "refresh") refresh_jti (uuid_text user.id),
    ),
    audit_log (some user.id) (codes "login") (record db {
      users =
          update_where (λ u. u.id == user.id) (λ u. record u { last_login_at = some now }) db.users;
    }),
  )

  -- The payloads of the two tokens, and the rows when the request is over.
  unfoldable pub login :
      (now access_seconds refresh_seconds : ℕ) (access_jti refresh_jti username password : Text)
      → AuthDb
      → Reply (Payload × Payload) × AuthDb
  login now access_seconds refresh_seconds access_jti refresh_jti username password = get_db (λ db.
      log_in now access_seconds refresh_seconds access_jti refresh_jti
        (authenticate_user username password db.users) db)

  -- A login that is answered: of an active user with that name and password, with the two tokens' payloads
  -- of that user and of the settings' lifetimes.
  abbrev pub LoggedIn :
      (now access_seconds refresh_seconds : ℕ) (username password : Text)
      → AuthDb
      → Reply (Payload × Payload) × AuthDb
      → Type 0
  LoggedIn now access_seconds refresh_seconds username password db (answer, db') =
      (user : User) × In user db.users
      × (user.username ≡ username)
      × (user.is_active ≡ true)
      × (checkpw password user.hashed_password ≡ true)
      × (access : Payload) × (refresh : Payload) × (answer ≡ reply (access, refresh))
      × (access.sub ≡ some (uuid_text user.id))
      × (access.token_type ≡ codes "access")
      × (access.exp ≡ now / second + access_seconds)
      × (refresh.sub ≡ some (uuid_text user.id))
      × (refresh.token_type ≡ codes "refresh")
      × (refresh.exp ≡ now / second + refresh_seconds)
      × (entry : AuditLog) × (db'.audit_logs ≡ db.audit_logs ++ entry ∷ [])
      × (entry.user_id ≡ some user.id)
      × (entry.action ≡ codes "login")
      × (db'.users
          ≡ update_where (λ u. u.id == user.id) (λ u. record u { last_login_at = some now })
              db.users)
      × (db'.api_keys ≡ db.api_keys)

  with_password-some :
      (password : Text) (found : Option User) {user : User}
      → with_password password found ≡ some user
      → (found ≡ some user) × (checkpw password user.hashed_password ≡ true)
  with_password-some password none e = cc
  with_password-some password (some u) {user} e =
      elim (Bool-cases (checkpw password u.hashed_password)) [
        | inl t ↦
            let same : u ≡ user = some-injective u user (rw t at e) in
            (ap some same, ap (λ w. checkpw password w.hashed_password) (sym same) ∙ t)
        | inr t ↦ absurd (let n = rw t at e in cc)
      ]

  authenticate_user-some :
      (username password : Text) (users : List User) {user : User}
      → authenticate_user username password users ≡ some user
      → In user users
        × (user.username ≡ username)
        × (user.is_active ≡ true)
        × (checkpw password user.hashed_password ≡ true)
  unfolding authenticate_user
  authenticate_user-some username password users {user} e =
      let test : User → Bool = λ u. text_eq u.username username && u.is_active in
      let (row, passed) = with_password-some password (find? test users) e in
      let t = find?-test test users row in
      (
        In-find? test users row,
        (text_eq_iff user.username username).0 (ground arith),
        ground arith,
        passed,
      )

  module _ (now access_seconds refresh_seconds : ℕ) (access_jti refresh_jti : Text) where
    -- Every login ends in one of two ways. Where a user is authenticated, that user has the name and the
    -- password and is active; the request is answered with an access and a refresh token of the
    -- user, the time is written to the user's row, and one entry `login` of the user is added to the
    -- audit log. Otherwise the endpoint writes the entry `login.failed` and raises 401, and the tables are
    -- left as they were, without that entry: it is rolled back with the rest of the request.
    pub login-outcome :
        (username password : Text) (db : AuthDb)
        → (LoggedIn now access_seconds refresh_seconds username password db
            (login now access_seconds refresh_seconds access_jti refresh_jti username password db))
          ⊎ ((authenticate_user username password db.users ≡ none)
              × (entry : AuditLog) × (entry.action ≡ codes "login.failed")
              × ((log_in now access_seconds refresh_seconds access_jti refresh_jti
                    (authenticate_user username password db.users)
                    db).1.audit_logs
                  ≡ db.audit_logs ++ entry ∷ [])
              × (login now access_seconds refresh_seconds access_jti refresh_jti username password
                    db
                  ≡ (http_error 401, db)))
    unfolding login get_db new_payload
    login-outcome username password db =
        elim (Option-cases (authenticate_user username password db.users)) [
          | inl e ↦ inr (
            e,
            record { user_id = none; action = codes "login.failed"; target_id = none },
            refl,
            rw e,
            rw e,
          )
          | inr (user, e) ↦
              let (member, name, active, passed) =
                authenticate_user-some username password db.users e in
              rw (login, e)
                (inl (
                  user, member, name, active, passed, _, _, refl, refl, refl, refl, refl, refl,
                  refl, _, refl, refl, refl, refl, refl,
                ))
        ]
