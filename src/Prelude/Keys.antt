-- ===== src/Prelude/Keys.antt =====
-- Tables whose rows have different keys.
use Prim.Native.Nat.{ℕ}
use mathlib.Core.Path.{◌≡◌, sym, ◌∙◌}
use mathlib.Core.Logic.{◌≢◌, inl, inr}
use mathlib.Core.Bool.{Bool}
use mathlib.Core.Option.{some}
use native.Mathlib.Omega.{arith}
use mathlib.Core.List.{List, [], ◌∷◌, ◌++◌}
use local_ai_search.Prelude.Booleans.{if◌then◌else◌, Bool-cases, ◌==◌, ==_refl}
use local_ai_search.Prelude.Lists.{select, find?, update_where}
use local_ai_search.Prelude.Predicates.{All, In, All-at, All-append, All-select, All-update_where}

module _ {A : Type 0} (key : A → ℕ) where
  abbrev pub UniqueBy : List A → Type 0
  UniqueBy [] = Unit
  UniqueBy (x ∷ xs) = All (λ y. key y ≢ key x) xs × UniqueBy xs

  -- Two rows of the table with one key are one row.
  pub UniqueBy-same :
      (xs : List A) {x y : A} → UniqueBy xs → In x xs → In y xs → key x ≡ key y → x ≡ y
  UniqueBy-same [] u p q e = elim p [ ]
  UniqueBy-same (z ∷ xs) u (inl p) (inl q) e = p ∙ sym q
  UniqueBy-same (z ∷ xs) u (inl p) (inr q) e = absurd (All-at _ xs u.0 q (sym e ∙ rw p))
  UniqueBy-same (z ∷ xs) u (inr p) (inl q) e = absurd (All-at _ xs u.0 p (e ∙ rw q))
  UniqueBy-same (z ∷ xs) u (inr p) (inr q) e = UniqueBy-same xs u.1 p q e

  -- A row is found by its key.
  pub UniqueBy-find? :
      (xs : List A) {x : A} → UniqueBy xs → In x xs → find? (λ y. key y == key x) xs ≡ some x
  UniqueBy-find? [] u m = elim m [ ]
  UniqueBy-find? (y ∷ xs) {x} u (inl e) = rw e (rw (==_refl (key y)))
  UniqueBy-find? (y ∷ xs) {x} u (inr m) = elim (Bool-cases (key y == key x)) [
    | inl e ↦ absurd (All-at _ xs u.0 m (ground arith))
    | inr e ↦ rw (e, UniqueBy-find? xs u.1 m)
  ]

  pub UniqueBy-append :
      (xs : List A) (y : A) → UniqueBy xs → All (λ x. key x ≢ key y) xs → UniqueBy (xs ++ y ∷ [])
  UniqueBy-append [] y u h = (tt, tt)
  UniqueBy-append (x ∷ xs) y u h = (
    All-append (λ z. key z ≢ key x) xs (y ∷ []) u.0 ((λ e. h.0 (sym e)), tt),
    UniqueBy-append xs y u.1 h.1,
  )

  pub UniqueBy-select : (test : A → Bool) (xs : List A) → UniqueBy xs → UniqueBy (select test xs)
  UniqueBy-select test [] u = tt
  UniqueBy-select test (x ∷ xs) u = elim (Bool-cases (test x)) [
    | inl e ↦ rw e (All-select _ test xs u.0, UniqueBy-select test xs u.1)
    | inr e ↦ rw e (UniqueBy-select test xs u.1)
  ]

  module _ (test : A → Bool) (f : A → A) (kept : (x : A) → key (f x) ≡ key x) where
    key-update : (x : A) → key (if test x then f x else x) ≡ key x
    key-update x = elim (Bool-cases (test x)) [ inl e ↦ rw e (kept x) | inr e ↦ rw e ]

    pub UniqueBy-update_where : (xs : List A) → UniqueBy xs → UniqueBy (update_where test f xs)
    UniqueBy-update_where [] u = tt
    UniqueBy-update_where (x ∷ xs) u = (
      All-update_where (λ y. key y ≢ key x) (λ y. key y ≢ key (if test x then f x else x)) test f xs
          (λ y t h e. h (sym (kept y) ∙ (e ∙ key-update x))) (λ y t h e. h (e ∙ key-update x)) u.0,
      UniqueBy-update_where xs u.1,
    )
