-- ===== src/Auth/Revocation.antt =====
-- A token that was revoked by `logout` is refused by `get_current_user` and `refresh` ever after
-- (backend/app/routers/auth.py, backend/app/deps.py).
use local_ai_search.Prelude.{
  ℕ, ◌/◌, ◌≤◌, ◌≡◌, refl, ap, sym, ◌∙◌, Bool, true, false, Option, none, some, List, [], ◌∷◌, ◌++◌,
  Text, codes, text_eq, contains, In, In-last, Option-cases, All, Bool-cases, inl, inr,
}
use local_ai_search.Session.{required, reply-injective, http_error, reply}
use local_ai_search.Auth.{
  Payload, Redis, AuthDb, second, verify_token, is_revoked, get_current_user, revoke, of_type,
  with_jti, access_payloads, refresh_payloads, log_out, logout, refresh,
}
use local_ai_search.Auth.Blacklist.{Agrees, revoke_all, revoke-In, revoke_all-keeps}

of_type-some :
    (expected : Text) (o : Option Payload) {p : Payload} → of_type expected o ≡ some p → o ≡ some p
of_type-some expected none e = cc
of_type-some expected (some q) {p} e = elim (Bool-cases (text_eq q.token_type expected)) [
  | inl t ↦ rw t at e
  | inr t ↦ absurd (let n = rw t at e in cc)
]

with_jti-given :
    (o : Option Payload) (p : Payload) (c : ℕ) (jti : Text)
    → o ≡ some p
    → p.jti ≡ some (c ∷ jti)
    → with_jti o ≡ p ∷ []
with_jti-given o p c jti e h = rw e (rw h)

-- `expires` and `stable` are what jose promises: a token is refused when its `exp` is over, and what it says
-- does not change.
module _ (redis : Redis) (jwt_decode : (now : ℕ) → Text → Option Payload)
    (expires : (now : ℕ) (token : Text) (p : Payload)
      → jwt_decode now token ≡ some p
      → now / second ≤ p.exp)
    (stable : (now later : ℕ) (token : Text) (p q : Payload)
      → jwt_decode now token ≡ some p
      → jwt_decode later token ≡ some q
      → q ≡ p) where
  -- What `logout` does to Redis when it is answered and there is a token to revoke.
  log_out-revokes :
      (parse_uuid : Text → Option ℕ) (sha256 : Text → Text) (reachable : Bool) (now : ℕ)
      (payloads : List Payload) (r r' : redis.State) (db db' : AuthDb) (p : Payload)
      → In p payloads
      → log_out redis jwt_decode parse_uuid sha256 reachable now payloads r db ≡ reply (r', db')
      → r' ≡ revoke redis now payloads r
  log_out-revokes parse_uuid sha256 reachable now [] r r' db db' p m e = elim m [ ]
  log_out-revokes parse_uuid sha256 reachable now (q ∷ payloads) r r' db db' p m e =
      let (up, e') = required reachable 503 _ e in sym (ap (λ x. x.0) (reply-injective _ _ e'))

  -- The token is refused at a later time, whatever it was used for.
  refused_later :
      (now later : ℕ) (token : Text) (payloads : List Payload) (calls : List (ℕ × List Payload))
      (r : redis.State) (p q : Payload) (c : ℕ) (jti : Text)
      → jwt_decode now token ≡ some p
      → jwt_decode later token ≡ some q
      → p.jti ≡ some (c ∷ jti)
      → In p payloads
      → Agrees redis (c ∷ jti) p.exp payloads
      → All (λ (t, others). (t ≤ later) × Agrees redis (c ∷ jti) p.exp others) calls
      → now ≤ later
      → is_revoked redis later q.jti (revoke_all redis calls (revoke redis now payloads r)) ≡ true
  refused_later now later token payloads calls r p q c jti first again has_jti m agree agrees le =
      let same : q ≡ p = stable now later token p q first again in
      let alive : later / second ≤ p.exp = expires later token p (again ∙ ap some same) in
      rw (same, has_jti)
        (revoke_all-keeps redis later p.exp (c ∷ jti) calls _ alive agrees
          (revoke-In redis now later p.exp (c ∷ jti) payloads r p le alive agree m has_jti))

  -- Where a token is decoded only while it is not expired and always to one payload, and no other
  -- token that is revoked has its identifier with another expiry: the access token of an answered
  -- `logout` is refused from then on, at any later time and whatever other logouts revoke until then,
  -- that is, `get_current_user` answers 401 where Redis is reachable, and an error where it is not.
  pub logout-get_current_user :
      (parse_uuid : Text → Option ℕ) (sha256 : Text → Text) (reachable : Bool) (now later : ℕ)
      (token : Text) (refresh_token : Option Text) (calls : List (ℕ × List Payload))
      (r r' : redis.State) (db db' db'' : AuthDb) (p : Payload) (c : ℕ) (jti : Text)
      → contains token b'.' ≡ true
      → verify_token jwt_decode now token (codes "access") ≡ some p
      → p.jti ≡ some (c ∷ jti)
      → Agrees redis (c ∷ jti) p.exp (p ∷ refresh_payloads jwt_decode now refresh_token)
      → All (λ (t, others). (t ≤ later) × Agrees redis (c ∷ jti) p.exp others) calls
      → now ≤ later
      → logout redis jwt_decode parse_uuid sha256 reachable now (some token) refresh_token r db
        ≡ reply (r', db')
      → let answer = λ (up : Bool).
        get_current_user redis jwt_decode parse_uuid sha256 up later token
          (revoke_all redis calls r')
          db'' in
        (answer true ≡ http_error 401) × ((status : ℕ) × (answer false ≡ http_error status))
  unfolding logout get_current_user verify_token
  logout-get_current_user parse_uuid sha256 reachable now later token refresh_token calls r r' db
        db' db'' p c jti dot valid has_jti agree agrees le done =
      let payloads : List Payload = p ∷ refresh_payloads jwt_decode now refresh_token in
      let first : jwt_decode now token ≡ some p =
        of_type-some (codes "access") (jwt_decode now token) valid in
      let shape : access_payloads jwt_decode now (some token) ≡ p ∷ [] =
        rw dot (with_jti-given _ p c jti valid has_jti) in
      let written : r' ≡ revoke redis now payloads r =
        log_out-revokes parse_uuid sha256 reachable now payloads r r' db db' p (inl refl) (
          ap
            (λ l.
              log_out redis jwt_decode parse_uuid sha256 reachable now
                (l ++ refresh_payloads jwt_decode now refresh_token) r db)
            (sym shape)
          ∙ done) in
      elim (Option-cases (of_type (codes "access") (jwt_decode later token))) [
        | inl refused ↦ (rw (dot, refused), (401, rw (dot, refused)))
        | inr (q, again) ↦
            let again' = of_type-some (codes "access") (jwt_decode later token) again in
            let same_jti : q.jti ≡ some (c ∷ jti) =
              ap (λ x. x.jti) (stable now later token p q first again') ∙ has_jti in
            (
              rw (
                dot,
                again,
                written,
                refused_later now later token payloads calls r p q c jti first again' has_jti
                    (inl refl) agree agrees le,
              ),
              (500, rw (dot, again) (rw same_jti)),
            )
      ]

  -- Where a token is decoded only while it is not expired and always to one payload, and no other
  -- token that is revoked has its identifier with another expiry: the refresh token of an answered
  -- `logout` is refused from then on, that is, `refresh` makes no access token of it: it answers 401
  -- where Redis is reachable, and an error where it is not.
  pub logout-refresh :
      (parse_uuid : Text → Option ℕ) (sha256 : Text → Text) (reachable : Bool)
      (now later seconds : ℕ) (new_jti : Text) (d : ℕ) (token : Text) (credentials : Option Text)
      (calls : List (ℕ × List Payload)) (r r' : redis.State) (db db' : AuthDb) (p : Payload) (c : ℕ)
      (jti : Text)
      → verify_token jwt_decode now (d ∷ token) (codes "refresh") ≡ some p
      → p.jti ≡ some (c ∷ jti)
      → Agrees redis (c ∷ jti) p.exp (access_payloads jwt_decode now credentials ++ p ∷ [])
      → All (λ (t, others). (t ≤ later) × Agrees redis (c ∷ jti) p.exp others) calls
      → now ≤ later
      → logout redis jwt_decode parse_uuid sha256 reachable now credentials (some (d ∷ token)) r db
        ≡ reply (r', db')
      → let answer = λ (up : Bool).
        refresh redis jwt_decode parse_uuid sha256 up later seconds new_jti
          (d ∷ token)
          (revoke_all redis calls r') in
        (answer true ≡ http_error 401) × ((status : ℕ) × (answer false ≡ http_error status))
  unfolding logout refresh verify_token
  logout-refresh parse_uuid sha256 reachable now later seconds new_jti d token credentials calls r
        r' db db' p c jti valid has_jti agree agrees le done =
      let payloads : List Payload = access_payloads jwt_decode now credentials ++ p ∷ [] in
      let first : jwt_decode now (d ∷ token) ≡ some p = of_type-some (codes "refresh") _ valid in
      let shape : refresh_payloads jwt_decode now (some (d ∷ token)) ≡ p ∷ [] =
        with_jti-given _ p c jti valid has_jti in
      let m : In p payloads = In-last (access_payloads jwt_decode now credentials) p in
      let written : r' ≡ revoke redis now payloads r =
        log_out-revokes parse_uuid sha256 reachable now payloads r r' db db' p m (
          ap
            (λ l.
              log_out redis jwt_decode parse_uuid sha256 reachable now
                (access_payloads jwt_decode now credentials ++ l) r db)
            (sym shape)
          ∙ done) in
      elim (Option-cases (of_type (codes "refresh") (jwt_decode later (d ∷ token)))) [
        | inl refused ↦ (rw refused, (401, rw refused))
        | inr (q, again) ↦
            let again' = of_type-some (codes "refresh") (jwt_decode later (d ∷ token)) again in
            let same_jti : q.jti ≡ some (c ∷ jti) =
              ap (λ x. x.jti) (stable now later (d ∷ token) p q first again') ∙ has_jti in
            (
              rw (
                again,
                written,
                refused_later now later (d ∷ token) payloads calls r p q c jti first again' has_jti
                    m agree agrees le,
              ),
              (500, rw again (rw same_jti)),
            )
      ]
