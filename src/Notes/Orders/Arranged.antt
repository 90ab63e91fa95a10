-- ===== src/Notes/Orders/Arranged.antt =====
-- What `_place_orders` of backend/app/routers/notes.py promises, and that it keeps it.
use local_ai_search.Prelude.{
  ℕ, zero, suc, ◌+◌, ◌≤◌, ℤ, pos, ◌+ℤ◌, ◌-ℤ◌, ◌≤ℤ◌, ◌<ℤ◌, ltb, ltb_ℤ, integers, eq_of_parts,
  pos_part, neg_part, ◌≡◌, refl, sym, Bool, true, false, ◌&&◌, Option, none, some, List, [], ◌∷◌,
  arith, All, Bool-cases, inl, inr,
}
use mathlib.Core.Path.{subst}
use mathlib.Core.Option.{some-injective, some-ne-none}
use local_ai_search.Notes.Orders.{Item, lo, hi, cons_order, place_after}

-- Orders for the items that grow from above `prev` on, where a fixed item has its own.
abbrev pub Growing : (prev : ℤ) → List Item → List ℤ → Type 0
Growing prev [] [] = Unit
Growing prev [] (x ∷ out) = ⊥
Growing prev (item ∷ items) [] = ⊥
Growing prev ((true, o) ∷ items) (x ∷ out) = (prev <ℤ x) × Growing x items out
Growing prev ((false, o) ∷ items) (x ∷ out) = (prev <ℤ x) × (x ≡ o) × Growing x items out

abbrev pub Fits : ℤ → Type 0
Fits o = (lo ≤ℤ o) × (o ≤ℤ hi)

-- Each order is at most the one at the same place.
abbrev pub Below : List ℤ → List ℤ → Type 0
Below [] [] = Unit
Below [] (y ∷ ys) = ⊥
Below (x ∷ xs) [] = ⊥
Below (x ∷ xs) (y ∷ ys) = (x ≤ℤ y) × Below xs ys

pub cons_order-some :
    (x : ℤ) (o : Option (List ℤ)) {out : List ℤ}
    → cons_order x o ≡ some out
    → (rest : List ℤ) × (o ≡ some rest) × (out ≡ x ∷ rest)
cons_order-some x none e = cc
cons_order-some x (some rest) {out} e = (rest, refl, sym (some-injective (x ∷ rest) out e))

gap_ge :
    (fo o : ℤ) (k : ℕ)
    → fo +ℤ pos k <ℤ o
    → k + neg_part (o -ℤ fo -ℤ pos 1) ≤ pos_part (o -ℤ fo -ℤ pos 1) + 0
gap_ge fo o k h = omega integers

and_false : (b : Bool) → (b && false) ≡ false
and_false true = refl
and_false false = refl

second_false : (b c : Bool) → b ≡ true → (b && c) ≡ false → c ≡ false
second_false b c h e = ground (arith, h, e)

one_more : (fo : ℤ) (k : ℕ) → fo +ℤ pos 1 +ℤ pos k ≡ fo +ℤ pos (suc k)
one_more fo k = eq_of_parts _ _ (omega integers)

pub plus_zero : (o : ℤ) → o ≡ o +ℤ pos 0
plus_zero o = eq_of_parts _ _ (omega integers)

ltb-false : (a b : ℕ) → b ≤ a → ltb a b ≡ false
ltb-false a b h = ground arith

ltb_not : (a b : ℕ) → ltb a b ≡ false → b ≤ a
ltb_not a b h = ground arith

gap_false :
    (fo o : ℤ) (k : ℕ) → fo +ℤ pos k <ℤ o → (ltb 0 k && ltb_ℤ (o -ℤ fo -ℤ pos 1) (pos k)) ≡ false
gap_false fo o k h = rw (ltb-false _ _ (gap_ge fo o k h)) (and_false (ltb 0 k))

-- Enough room between two fixed notes, or no note there.
gap_room :
    (fo o : ℤ) (k : ℕ)
    → fo <ℤ o
    → (ltb 0 k && ltb_ℤ (o -ℤ fo -ℤ pos 1) (pos k)) ≡ false
    → fo +ℤ pos k <ℤ o
gap_room fo o zero h e = omega integers
gap_room fo o (suc k) h e =
    let q =
      ltb_not (pos_part (o -ℤ fo -ℤ pos 1) + 0) (suc k + neg_part (o -ℤ fo -ℤ pos 1))
        (second_false (ltb 0 (suc k)) _ (ground arith) e) in
    omega integers

-- If any growing orders are there, `place_after` finds some, and none of them is higher.
pub place_after_complete :
    (fo p : ℤ) (k : ℕ) (items : List Item) (out' : List ℤ)
    → fo +ℤ pos k ≤ℤ p
    → Growing p items out'
    → (out : List ℤ) × (place_after fo k items ≡ some out) × Below out out'
unfolding place_after
place_after_complete fo p k [] [] h g = ([], refl, tt)
place_after_complete fo p k [] (x ∷ out') h g = elim g [ ]
place_after_complete fo p k (item ∷ items) [] h g = elim g [ ]
place_after_complete fo p k ((true, o) ∷ items) (x ∷ out') h g =
    let (out, e, b) =
      place_after_complete fo x (suc k) items out' (let q = g.0 in omega integers) g.1 in
    ((fo +ℤ pos 1 +ℤ pos k) ∷ out, rw e, (let q = g.0 in omega integers, b))
place_after_complete fo p k ((false, o) ∷ items) (x ∷ out') h g =
    let (above, same, later) = g in
    let room : fo +ℤ pos k <ℤ o =
      subst (λ z. fo +ℤ pos k <ℤ z) same (let q = above in omega integers) in
    let from_o : o +ℤ pos 0 ≤ℤ x = subst (λ z. z +ℤ pos 0 ≤ℤ x) same (omega integers) in
    let (out, e, b) = place_after_complete o x 0 items out' from_o later in
    (o ∷ out, rw (gap_false fo o k room) (rw e), (subst (λ z. z ≤ℤ x) same (omega arith), b))

Below-trans : (x y z : ℤ) → x ≤ℤ y → y ≤ℤ z → x ≤ℤ z
Below-trans x y z h k = omega arith

pub Below-hi : (xs ys : List ℤ) → Below xs ys → All (λ y. y ≤ℤ hi) ys → All (λ x. x ≤ℤ hi) xs
Below-hi [] [] b h = tt
Below-hi [] (y ∷ ys) b h = elim b [ ]
Below-hi (x ∷ xs) [] b h = elim b [ ]
Below-hi (x ∷ xs) (y ∷ ys) b h = (Below-trans x y hi b.0 h.0, Below-hi xs ys b.1 h.1)

-- `place_after` gives growing orders, where the fixed items grow already.
abbrev pub FixedGrow : (prev : ℤ) → List Item → Type 0
FixedGrow prev [] = Unit
FixedGrow prev ((true, o) ∷ items) = FixedGrow prev items
FixedGrow prev ((false, o) ∷ items) = (prev <ℤ o) × FixedGrow o items

pub place_after-Growing :
    (fo p : ℤ) (k : ℕ) (items : List Item) (out : List ℤ)
    → p ≡ fo +ℤ pos k
    → FixedGrow fo items
    → place_after fo k items ≡ some out
    → Growing p items out
unfolding place_after
place_after-Growing fo p k [] out h f e = subst (Growing p []) (some-injective [] out e) tt
place_after-Growing fo p k ((true, o) ∷ items) out h f e =
    let (rest, e', is_out) = cons_order-some _ (place_after fo (suc k) items) e in
    let next : ℤ = fo +ℤ pos 1 +ℤ pos k in
    let same : next ≡ fo +ℤ pos (suc k) = one_more fo k in
    subst (Growing p ((true, o) ∷ items)) (sym is_out) (
      subst (λ z. z <ℤ next) (sym h) (omega integers),
      place_after-Growing fo next (suc k) items rest same f e',
    )
place_after-Growing fo p k ((false, o) ∷ items) out h f e =
    elim (Bool-cases (ltb 0 k && ltb_ℤ (o -ℤ fo -ℤ pos 1) (pos k))) [
      | inl t ↦ absurd (some-ne-none out (sym (rw t at e)))
      | inr t ↦
          let (rest, e', is_out) = cons_order-some o (place_after o 0 items) (rw t at e) in
          subst (Growing p ((false, o) ∷ items)) (sym is_out) (
            subst (λ z. z <ℤ o) (sym h) (gap_room fo o k f.0 t),
            refl,
            place_after-Growing o o 0 items rest (plus_zero o) f.1 e',
          )
    ]
