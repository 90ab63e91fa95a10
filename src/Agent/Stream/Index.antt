-- ===== src/Agent/Stream/Index.antt =====
-- Python's `s.find(sub)`, and where it finds nothing.
use mathlib.Core.Bool.{false≢true}
use mathlib.Core.Option.{some-ne-none}
use local_ai_search.Prelude.{
  ℕ, zero, suc, ◌++◌, sym, ◌∙◌, ◌≤◌, ◌≡◌, refl, true, false, Option, none, some, [], ◌∷◌, Text,
  arith, if◌then◌else◌, take, starts_with, Bool-cases, inl, inr,
}

abbrev pub shifted : Option ℕ → Option ℕ
shifted none = none
shifted (some i) = some (suc i)

-- `s.find(sub)`, with `none` for -1
unfoldable pub index_of : (sub : Text) → Text → Option ℕ
index_of sub [] = if starts_with [] sub then some 0 else none
index_of sub (c ∷ s) =
    let rest = index_of sub s in if starts_with (c ∷ s) sub then some 0 else shifted rest

-- A text that begins with `sub` still does when more follows.
starts_with-take :
    (s sub : Text) (n : ℕ) → starts_with (take n s) sub ≡ true → starts_with s sub ≡ true
starts_with-take s [] n e = refl
starts_with-take s (d ∷ sub) zero e = cc
starts_with-take [] (d ∷ sub) (suc n) e = e
starts_with-take (c ∷ s) (d ∷ sub) (suc n) e = ground (arith, starts_with-take s sub n)

starts_with-false :
    (s sub : Text) (n : ℕ) → starts_with s sub ≡ false → starts_with (take n s) sub ≡ false
starts_with-false s sub n e = elim (Bool-cases (starts_with (take n s) sub)) [
  | inl t ↦ absurd (false≢true (sym e ∙ starts_with-take s sub n t))
  | inr t ↦ t
]

starts_with-append :
    (s more sub : Text) → starts_with s sub ≡ true → starts_with (s ++ more) sub ≡ true
starts_with-append s more [] e = refl
starts_with-append [] more (d ∷ sub) e = cc
starts_with-append (c ∷ s) more (d ∷ sub) e = ground (arith, starts_with-append s more sub)

shifted-none : (o : Option ℕ) → shifted o ≡ none → o ≡ none
shifted-none none e = refl
shifted-none (some i) e = cc

-- A text without `sub` that begins with no `sub` has none behind its first character.
index_of-tail :
    (d : ℕ) (sub : Text) (c : ℕ) (s : Text)
    → index_of (d ∷ sub) (c ∷ s) ≡ none
    → (starts_with (c ∷ s) (d ∷ sub) ≡ false) × (index_of (d ∷ sub) s ≡ none)
unfolding index_of
index_of-tail d sub c s e = elim (Bool-cases (starts_with (c ∷ s) (d ∷ sub))) [
  | inl t ↦ absurd (some-ne-none 0 (rw t at e))
  | inr t ↦ (t, shifted-none _ (rw t at e))
]

pub index_of-left :
    (d : ℕ) (sub s more : Text)
    → index_of (d ∷ sub) (s ++ more) ≡ none
    → index_of (d ∷ sub) s ≡ none
unfolding index_of
index_of-left d sub [] more e = refl
index_of-left d sub (c ∷ s) more e =
    let (miss, rest) = index_of-tail d sub c (s ++ more) e in
    elim (Bool-cases (starts_with (c ∷ s) (d ∷ sub))) [
      | inl t ↦ absurd (false≢true (sym miss ∙ starts_with-append (c ∷ s) more (d ∷ sub) t))
      | inr t ↦ rw t (rw (index_of-left d sub s more rest))
    ]

pub index_of-right :
    (d : ℕ) (sub before s : Text)
    → index_of (d ∷ sub) (before ++ s) ≡ none
    → index_of (d ∷ sub) s ≡ none
index_of-right d sub [] s e = e
index_of-right d sub (c ∷ before) s e =
    index_of-right d sub before s (index_of-tail d sub c (before ++ s) e).1

shifted-some : (o : Option ℕ) {p : ℕ} → o ≡ some p → shifted o ≡ some (suc p)
shifted-some o e = rw e

-- What is cut off at or before the first place of `sub` does not have `sub` in it.
pub index_of-take :
    (d : ℕ) (sub s : Text) (n : ℕ)
    → ((p : ℕ) → index_of (d ∷ sub) s ≡ some p → n ≤ p)
    → index_of (d ∷ sub) (take n s) ≡ none
unfolding index_of
index_of-take d sub s zero h = refl
index_of-take d sub [] (suc n) h = refl
index_of-take d sub (c ∷ s) (suc n) h = elim (Bool-cases (starts_with (c ∷ s) (d ∷ sub))) [
  | inl t ↦ let q = h 0 (rw t) in absurd (omega arith)
  | inr t ↦
      let miss = starts_with-false (c ∷ s) (d ∷ sub) (suc n) t in
      let behind : index_of (d ∷ sub) (take n s) ≡ none =
        index_of-take d sub s n (λ p e.
          let q = h (suc p) (rw t (shifted-some (index_of (d ∷ sub) s) e)) in omega arith) in
      rw miss (rw behind)
]
