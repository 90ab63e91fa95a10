-- ===== src/Documents/Access.antt =====
-- Who may write a document (backend/app/routers/documents.py), and lemmas on the rows that are written.
use local_ai_search.Prelude.{
  ◌≡◌, refl, sym, ◌∙◌, ap, Bool, true, false, not, List, [], ◌∷◌, map, arith, ◌==◌, select, any,
  contains, All, In, UniqueBy, UniqueBy-same, Bool-cases, inl, inr,
}
use mathlib.Core.Bool.{false≢true}
use local_ai_search.Models.{User, Document}
use local_ai_search.Permissions.{can_access_document}
use local_ai_search.Documents.{Tables, may_write, owns_document}

pub owns-may_write :
    (doc : Document) (user : User) (t : Tables)
    → owns_document user doc ≡ true
    → may_write doc user t ≡ true
unfolding can_access_document
owns-may_write doc user t e = ground (arith, e)

-- A list of rows that pass a test does not name a row that fails it, as ids are different.
pub contains-others :
    (may : Document → Bool) (docs sel : List Document) (d : Document)
    → UniqueBy (λ x. x.id) docs
    → In d docs
    → may d ≡ false
    → All (λ x. In x docs × (may x ≡ true)) sel
    → contains (map (λ x. x.id) sel) d.id ≡ false
contains-others may docs [] d u m miss h = refl
contains-others may docs (x ∷ sel) d u m miss h = elim (Bool-cases (x.id == d.id)) [
  | inl p ↦
      let same : x ≡ d = UniqueBy-same (λ y. y.id) docs u h.0.0 m (ground arith) in
      absurd (false≢true (sym miss ∙ (ap may (sym same) ∙ h.0.1)))
  | inr p ↦ rw p (contains-others may docs sel d u m miss h.1)
]

module _ {A : Type 0} where
  -- A narrower selection does not see a wider one.
  pub select-select :
      (p q : A → Bool) (xs : List A)
      → ((x : A) → p x ≡ true → q x ≡ true)
      → select p (select q xs) ≡ select p xs
  select-select p q [] f = refl
  select-select p q (x ∷ xs) f = elim (Bool-cases (p x)) [
    | inl e ↦ rw (f x e) (rw (e, select-select p q xs f))
    | inr e ↦ elim (Bool-cases (q x)) [
      | inl g ↦ rw g (rw (e, select-select p q xs f))
      | inr g ↦ rw (g, e) (select-select p q xs f)
    ]
  ]

  pub any-none : (p : A → Bool) (xs : List A) → not (any p xs) ≡ true → All (λ x. p x ≡ false) xs
  any-none p [] e = tt
  any-none p (x ∷ xs) e = elim (Bool-cases (p x)) [
    | inl t ↦ absurd (ground arith)
    | inr t ↦ (t, any-none p xs (rw t at e))
  ]
