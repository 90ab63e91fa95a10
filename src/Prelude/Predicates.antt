-- ===== src/Prelude/Predicates.antt =====
-- Predicates on lists by recursion, which the tactics read and build.
use Prim.Native.Nat.{ℕ, zero, suc}
use mathlib.Core.Path.{◌≡◌, refl, sym, subst}
use mathlib.Core.Logic.{◌↔◌, ◌⊎◌, inl, inr}
use mathlib.Core.Bool.{Bool, true, false, false≢true}
use mathlib.Core.List.{List, [], ◌∷◌, ◌++◌, nil≢cons}
use mathlib.Core.Option.{none, some, some-injective}
use native.Mathlib.Omega.{arith}
use local_ai_search.Prelude.Booleans.{Bool-cases}
use local_ai_search.Prelude.Lists.{select, find?, update_where, take, drop}

module _ {ℓ κ} {A : Type ℓ} where
  abbrev pub All : (A → Type κ) → List A → Type κ
  All P [] = Unit
  All P (x ∷ xs) = P x × All P xs

  pub All-append : (P : A → Type κ) (xs ys : List A) → All P xs → All P ys → All P (xs ++ ys)
  All-append P [] ys hx hy = hy
  All-append P (x ∷ xs) ys hx hy = (hx.0, All-append P xs ys hx.1 hy)

  pub All-select :
      (P : A → Type κ) (test : A → Bool) (xs : List A) → All P xs → All P (select test xs)
  All-select P test [] h = h
  All-select P test (x ∷ xs) h = elim (Bool-cases (test x)) [
    | inl e ↦ rw e (h.0, All-select P test xs h.1)
    | inr e ↦ rw e (All-select P test xs h.1)
  ]

  pub All-select_and :
      (P : A → Type κ) (test : A → Bool) (xs : List A)
      → All P xs
      → All (λ x. P x × (test x ≡ true)) (select test xs)
  All-select_and P test [] h = tt
  All-select_and P test (x ∷ xs) h = elim (Bool-cases (test x)) [
    | inl e ↦ rw e ((h.0, e), All-select_and P test xs h.1)
    | inr e ↦ rw e (All-select_and P test xs h.1)
  ]

  -- What a selected list holds passes the test.
  pub All-select_test :
      (P : A → Type κ) (test : A → Bool) (xs : List A)
      → ((x : A) → test x ≡ true → P x)
      → All P (select test xs)
  All-select_test P test [] h = tt
  All-select_test P test (x ∷ xs) h = elim (Bool-cases (test x)) [
    | inl e ↦ rw e (h x e, All-select_test P test xs h)
    | inr e ↦ rw e (All-select_test P test xs h)
  ]

  pub All-update_where :
      (P Q : A → Type κ) (test : A → Bool) (f : A → A) (xs : List A)
      → ((x : A) → test x ≡ true → P x → Q (f x))
      → ((x : A) → test x ≡ false → P x → Q x)
      → All P xs
      → All Q (update_where test f xs)
  All-update_where P Q test f [] yes_ no_ h = tt
  All-update_where P Q test f (x ∷ xs) yes_ no_ h = elim (Bool-cases (test x)) [
    | inl e ↦ rw e (yes_ x e h.0, All-update_where P Q test f xs yes_ no_ h.1)
    | inr e ↦ rw e (no_ x e h.0, All-update_where P Q test f xs yes_ no_ h.1)
  ]

  pub All-find? :
      (P : A → Type κ) (test : A → Bool) (xs : List A) {y : A}
      → All P xs
      → find? test xs ≡ some y
      → P y
  All-find? P test [] h e = cc
  All-find? P test (x ∷ xs) {y} h e = elim (Bool-cases (test x)) [
    | inl t ↦ subst P (some-injective x y (rw t at e)) h.0
    | inr t ↦ All-find? P test xs h.1 (rw t at e)
  ]

  pub All-map : (P Q : A → Type κ) (xs : List A) → ((x : A) → P x → Q x) → All P xs → All Q xs
  All-map P Q [] f h = tt
  All-map P Q (x ∷ xs) f h = (f x h.0, All-map P Q xs f h.1)

  pub All-both :
      (P Q R : A → Type κ) (xs : List A)
      → ((x : A) → P x → Q x → R x)
      → All P xs
      → All Q xs
      → All R xs
  All-both P Q R [] f p q = tt
  All-both P Q R (x ∷ xs) f p q = (f x p.0 q.0, All-both P Q R xs f p.1 q.1)

module _ {ℓ} {A : Type ℓ} where
  pub find?-test : (test : A → Bool) (xs : List A) {y : A} → find? test xs ≡ some y → test y ≡ true
  find?-test test [] e = cc
  find?-test test (x ∷ xs) {y} e = ground (arith, find?-test test xs {y = y})

module _ {A : Type 0} where
  abbrev pub In : A → List A → Type 0
  In a [] = ⊥
  In a (x ∷ xs) = (a ≡ x) ⊎ In a xs

  pub In-find? : (test : A → Bool) (xs : List A) {y : A} → find? test xs ≡ some y → In y xs
  In-find? test [] e = cc
  In-find? test (x ∷ xs) {y} e = elim (Bool-cases (test x)) [
    | inl t ↦ inl (sym (some-injective x y (rw t at e)))
    | inr t ↦ inr (In-find? test xs (rw t at e))
  ]

  pub find?-none :
      (test : A → Bool) (xs : List A) {x : A} → find? test xs ≡ none → In x xs → test x ≡ false
  find?-none test [] e m = elim m [ ]
  find?-none test (y ∷ xs) {x} e m = elim (Bool-cases (test y)) [
    | inl t ↦ let found = rw t at e in cc
    | inr t ↦ elim m [ inl same ↦ rw same t | inr later ↦ find?-none test xs (rw t at e) later ]
  ]

  pub In-select :
      (test : A → Bool) (xs : List A) {x : A} → In x xs → test x ≡ true → In x (select test xs)
  In-select test [] m t = m
  In-select test (y ∷ xs) (inl e) t = rw (rw e at t) (inl e)
  In-select test (y ∷ xs) (inr m) t = elim (Bool-cases (test y)) [
    | inl p ↦ rw p (inr (In-select test xs m t))
    | inr p ↦ rw p (In-select test xs m t)
  ]

  -- A row that an UPDATE does not select stays.
  pub In-update_where :
      (test : A → Bool) (f : A → A) (xs : List A) {x : A}
      → test x ≡ false
      → In x xs
      → In x (update_where test f xs)
  In-update_where test f [] t m = m
  In-update_where test f (y ∷ xs) t (inl e) = inl (rw (sym e, t))
  In-update_where test f (y ∷ xs) t (inr m) = inr (In-update_where test f xs t m)

  -- A row that an UPDATE selects is there with its new values.
  pub In-update_where_hit :
      (test : A → Bool) (f : A → A) (xs : List A) {x : A}
      → test x ≡ true
      → In x xs
      → In (f x) (update_where test f xs)
  In-update_where_hit test f [] t m = m
  In-update_where_hit test f (y ∷ xs) t (inl e) = inl (rw (sym e, t))
  In-update_where_hit test f (y ∷ xs) t (inr m) = inr (In-update_where_hit test f xs t m)

  pub In-last : (xs : List A) (x : A) → In x (xs ++ x ∷ [])
  In-last [] x = inl refl
  In-last (y ∷ xs) x = inr (In-last xs x)

  pub All-of_In {κ} : (P : A → Type κ) (xs : List A) → ((x : A) → In x xs → P x) → All P xs
  All-of_In P [] f = tt
  All-of_In P (x ∷ xs) f = (f x (inl refl), All-of_In P xs (λ y m. f y (inr m)))

  pub All-In : (xs : List A) → All (λ x. In x xs) xs
  All-In xs = All-of_In (λ x. In x xs) xs (λ x m. m)

module _ {κ} {A : Type 0} where
  pub All-at : (P : A → Type κ) (xs : List A) {x : A} → All P xs → In x xs → P x
  All-at P [] h m = elim m [ ]
  All-at P (y ∷ ys) h (inl e) = subst P (sym e) h.0
  All-at P (y ∷ ys) h (inr m) = All-at P ys h.1 m

module _ {ℓ} {A : Type ℓ} where
  pub select-nil_iff :
      (test : A → Bool) (xs : List A) → (select test xs ≡ []) ↔ All (λ x. test x ≡ false) xs
  select-nil_iff test [] = (λ _. tt, λ _. refl)
  select-nil_iff test (x ∷ xs) = elim (Bool-cases (test x)) [
    | inl e ↦ rw e (λ h. absurd (nil≢cons (sym h)), λ h. absurd (false≢true (sym h.0)))
    | inr e ↦ rw e (λ h. (refl, (select-nil_iff test xs).0 h), λ h. (select-nil_iff test xs).1 h.1)
  ]

  pub All-true : (xs : List A) → All (λ _. Unit {0}) xs
  All-true [] = tt
  All-true (x ∷ xs) = (tt, All-true xs)

  pub select-append :
      (test : A → Bool) (xs ys : List A) → select test (xs ++ ys) ≡ select test xs ++ select test ys
  select-append test [] ys = refl
  select-append test (x ∷ xs) ys = elim (Bool-cases (test x)) [
    | inl e ↦ rw (e, select-append test xs ys)
    | inr e ↦ rw (e, select-append test xs ys)
  ]

  -- A list whose elements all pass a test is its own selection.
  pub select_of_All :
      (test : A → Bool) (xs : List A) → All (λ x. test x ≡ true) xs → select test xs ≡ xs
  select_of_All test [] h = refl
  select_of_All test (x ∷ xs) h = rw (h.0, select_of_All test xs h.1)

module _ {ℓ κ} {A : Type ℓ} where
  pub All-drop : (P : A → Type κ) (n : ℕ) (xs : List A) → All P xs → All P (drop n xs)
  All-drop P zero xs h = h
  All-drop P (suc n) [] h = h
  All-drop P (suc n) (x ∷ xs) h = All-drop P n xs h.1

  pub All-take : (P : A → Type κ) (n : ℕ) (xs : List A) → All P xs → All P (take n xs)
  All-take P zero xs h = tt
  All-take P (suc n) [] h = tt
  All-take P (suc n) (x ∷ xs) h = (h.0, All-take P n xs h.1)
