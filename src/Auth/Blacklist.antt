-- ===== src/Auth/Blacklist.antt =====
-- The blacklist of backend/app/routers/auth.py: how long `_revoke` keeps a token refused.
use local_ai_search.Prelude.{
  ℕ, ◌+◌, ◌*◌, ◌/◌, ◌<◌, ◌≤◌, ◌≡◌, ◌≢◌, ◌⊎◌, ap, sym, ◌∙◌, true, Option, none, some, List, [], ◌∷◌,
  Text, text_eq, text_eq_iff, arith, In, All, Bool-cases, inl, inr,
}
use local_ai_search.Auth.{Payload, Redis, second, revoked_key, lifetime, set_revoked, revoke}

-- While the token is not expired, its lifetime in Redis is not over.
lifetime_covers :
    (now later exp : ℕ) → later / second ≤ exp → later < now + lifetime now exp * second
lifetime_covers now later exp alive = omega arith

revoked_key-injective : (a b : Text) → revoked_key a ≡ revoked_key b → a ≡ b
revoked_key-injective a b e = cc

same_or_other : (a b : Text) → (a ≡ b) ⊎ (a ≢ b)
same_or_other a b = elim (Bool-cases (text_eq a b)) [
  | inl e ↦ inl ((text_eq_iff a b).0 e)
  | inr e ↦ inr (λ same. ground (arith, (text_eq_iff a b).1 same))
]

module _ (redis : Redis) where
  set_revoked-sets :
      (now later exp : ℕ) (jti : Text) (r : redis.State)
      → now ≤ later
      → later / second ≤ exp
      → redis.exists later (revoked_key jti) (set_revoked redis now exp (some jti) r) ≡ true
  set_revoked-sets now later exp jti r p alive =
      redis.exists-set now (lifetime now exp) later (revoked_key jti) r p
      ∙ (let t = lifetime_covers now later exp alive in ground arith)

  -- A later call for another token, or for the same one, does not take the revocation back.
  set_revoked-keeps :
      (now later exp exp' : ℕ) (jti : Text) (jti' : Option Text) (r : redis.State)
      → now ≤ later
      → later / second ≤ exp
      → (jti' ≡ some jti → exp' ≡ exp)
      → redis.exists later (revoked_key jti) r ≡ true
      → redis.exists later (revoked_key jti) (set_revoked redis now exp' jti' r) ≡ true
  set_revoked-keeps now later exp exp' jti none r p alive agree h = h
  set_revoked-keeps now later exp exp' jti (some other) r p alive agree h =
      elim (same_or_other jti other) [
        | inl same ↦
            let e : exp' ≡ exp = agree (ap some (sym same)) in
            rw (sym same, e) (set_revoked-sets now later exp jti r p alive)
        | inr differ ↦
            redis.exists-set_other now (lifetime now exp') later (revoked_key other)
              (revoked_key jti) r (λ e. differ (revoked_key-injective jti other e))
            ∙ h
      ]

  -- No payload says of the token that it expires at another time.
  abbrev pub Agrees : Text → ℕ → List Payload → Type 0
  Agrees jti exp payloads = All (λ p. p.jti ≡ some jti → p.exp ≡ exp) payloads

  revoke-keeps :
      (now later exp : ℕ) (jti : Text) (payloads : List Payload) (r : redis.State)
      → now ≤ later
      → later / second ≤ exp
      → Agrees jti exp payloads
      → redis.exists later (revoked_key jti) r ≡ true
      → redis.exists later (revoked_key jti) (revoke redis now payloads r) ≡ true
  unfolding revoke
  revoke-keeps now later exp jti [] r p alive agree h = h
  revoke-keeps now later exp jti (q ∷ payloads) r p alive agree h =
      revoke-keeps now later exp jti payloads _ p alive agree.1
        (set_revoked-keeps now later exp q.exp jti q.jti r p alive agree.0 h)

  pub revoke-In :
      (now later exp : ℕ) (jti : Text) (payloads : List Payload) (r : redis.State) (q : Payload)
      → now ≤ later
      → later / second ≤ exp
      → Agrees jti exp payloads
      → In q payloads
      → q.jti ≡ some jti
      → redis.exists later (revoked_key jti) (revoke redis now payloads r) ≡ true
  unfolding revoke
  revoke-In now later exp jti [] r q p alive agree m e = elim m [ ]
  revoke-In now later exp jti (q' ∷ payloads) r q p alive agree (inl same) e =
      let same_jti : q'.jti ≡ some jti = rw (sym same) e in
      let same_exp : q'.exp ≡ exp = agree.0 same_jti in
      revoke-keeps now later exp jti payloads _ p alive agree.1
        (rw (same_jti, same_exp) (set_revoked-sets now later exp jti r p alive))
  revoke-In now later exp jti (q' ∷ payloads) r q p alive agree (inr m) e =
      revoke-In now later exp jti payloads _ q p alive agree.1 m e

  -- What other calls of `logout` revoke in the meantime, each at its time.
  pub revoke_all : List (ℕ × List Payload) → redis.State → redis.State
  revoke_all [] r = r
  revoke_all ((now, payloads) ∷ calls) r = revoke_all calls (revoke redis now payloads r)

  pub revoke_all-keeps :
      (later exp : ℕ) (jti : Text) (calls : List (ℕ × List Payload)) (r : redis.State)
      → later / second ≤ exp
      → All (λ (now, payloads). (now ≤ later) × Agrees jti exp payloads) calls
      → redis.exists later (revoked_key jti) r ≡ true
      → redis.exists later (revoked_key jti) (revoke_all calls r) ≡ true
  unfolding revoke_all
  revoke_all-keeps later exp jti [] r alive agree h = h
  revoke_all-keeps later exp jti ((now, payloads) ∷ calls) r alive agree h =
      revoke_all-keeps later exp jti calls _ alive agree.1
        (revoke-keeps now later exp jti payloads r agree.0.0 alive agree.0.1 h)
