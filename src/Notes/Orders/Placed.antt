-- ===== src/Notes/Orders/Placed.antt =====
-- `_place_orders` of backend/app/routers/notes.py finds orders if there are any.
use local_ai_search.Prelude.{
  ℕ, zero, suc, ◌+◌, ℤ, pos, negsuc, ◌+ℤ◌, ◌-ℤ◌, ◌≤ℤ◌, ◌<ℤ◌, integers, ◌≡◌, refl, ◌∙◌, ap, true,
  false, not, some, List, [], ◌∷◌, ◌++◌, arith, any, map, length, All, All-append, All-map,
  All-both,
}
use mathlib.Core.Path.{subst}
use local_ai_search.Notes.Orders.{
  Item, lo, hi, place_after, count_down, in_column, place_from, place_orders,
}
use local_ai_search.Notes.Orders.Arranged.{
  Growing, Fits, FixedGrow, Below-hi, place_after_complete, place_after-Growing, plus_zero,
}

-- The order below the first that the column holds.
abbrev pub under : ℤ
under = negsuc 2147483648

abbrev pub writables : List ℤ → List Item
writables = map (λ o. (true, o))

Growing-FixedGrow :
    (fo p : ℤ) (items : List Item) (out : List ℤ)
    → fo ≤ℤ p
    → Growing p items out
    → FixedGrow fo items
Growing-FixedGrow fo p [] out h g = tt
Growing-FixedGrow fo p (item ∷ items) [] h g = elim g [ ]
Growing-FixedGrow fo p ((true, o) ∷ items) (x ∷ out) h g =
    Growing-FixedGrow fo x items out (let q = g.0 in omega arith) g.1
Growing-FixedGrow fo p ((false, o) ∷ items) (x ∷ out) h g =
    let (above, same, later) = g in
    (
      subst (λ z. fo <ℤ z) same (omega arith),
      Growing-FixedGrow o x items out (subst (λ z. z ≤ℤ x) same (omega arith)) later,
    )

Growing-lo :
    (p : ℤ) (items : List Item) (out : List ℤ)
    → lo ≤ℤ p
    → Growing p items out
    → All (λ x. lo ≤ℤ x) out
Growing-lo p [] [] h g = tt
Growing-lo p [] (x ∷ out) h g = elim g [ ]
Growing-lo p (item ∷ items) [] h g = elim g [ ]
Growing-lo p ((true, o) ∷ items) (x ∷ out) h g =
    let here : lo ≤ℤ x = let q = g.0 in omega arith in (here, Growing-lo x items out here g.1)
Growing-lo p ((false, o) ∷ items) (x ∷ out) h g =
    let here : lo ≤ℤ x = let q = g.0 in omega arith in (here, Growing-lo x items out here g.2)

-- What growing orders say of the first fixed item, and of those behind it.
first_fixed :
    (prev : ℤ) (os : List ℤ) (o : ℤ) (items : List Item) (out : List ℤ)
    → Growing prev (writables os ++ (false, o) ∷ items) out
    → All Fits out
    → (prev +ℤ pos (length os) <ℤ o)
      × Fits o
      × (rest : List ℤ) × Growing o items rest
      × All Fits rest
first_fixed prev [] o items [] g f = elim g [ ]
first_fixed prev [] o items (x ∷ out) g f =
    let (above, same, later) = g in
    (
      subst (λ z. prev +ℤ pos 0 <ℤ z) same (omega integers),
      subst Fits same f.0,
      out,
      subst (λ z. Growing z items out) same later,
      f.1,
    )
first_fixed prev (o' ∷ os) o items [] g f = elim g [ ]
first_fixed prev (o' ∷ os) o items (x ∷ out) g f =
    let (room, fits, rest, later, f') = first_fixed x os o items out g.1 f.1 in
    ((let q = g.0 in omega integers), fits, rest, later, f')

count_down-Growing :
    (prev : ℤ) (os : List ℤ) (o : ℤ) (items : List Item) (rest : List ℤ)
    → prev +ℤ pos (length os) <ℤ o
    → Growing o items rest
    → Growing prev (writables os ++ (false, o) ∷ items) (count_down o (length os) ++ o ∷ rest)
unfolding count_down
count_down-Growing prev [] o items rest h g = (omega integers, refl, g)
count_down-Growing prev (o' ∷ os) o items rest h g =
    let x : ℤ = o -ℤ pos 1 -ℤ pos (length os) in
    (omega integers, count_down-Growing x os o items rest (omega integers) g)

count_down-Fits : (o : ℤ) (k : ℕ) → lo +ℤ pos k ≤ℤ o → o ≤ℤ hi → All Fits (count_down o k)
unfolding count_down
count_down-Fits o zero h f = tt
count_down-Fits o (suc k) h f =
    ((omega integers, omega integers), count_down-Fits o k (omega integers) f)

checked-Fits : (out : List ℤ) → All Fits out → any (λ o. not (in_column o)) out ≡ false
checked-Fits [] f = refl
checked-Fits (o ∷ out) f =
    let here : in_column o ≡ true = ground (arith, f.0) in rw here (checked-Fits out f.1)

place_from-writables :
    (k n : ℕ) (os : List ℤ) (items : List Item)
    → k + length os ≡ n
    → place_from k (writables os ++ items) ≡ place_from n items
unfolding place_from
place_from-writables k n [] items h = ap (λ m. place_from m items) (omega (arith, h))
place_from-writables k n (o ∷ os) items h =
    place_from-writables (suc k) n os items (omega (arith, h))

place_from-fixed :
    (n : ℕ) (o : ℤ) (items : List Item) (rest : List ℤ)
    → place_after o 0 items ≡ some rest
    → All Fits (count_down o n ++ o ∷ rest)
    → place_from n ((false, o) ∷ items) ≡ some (count_down o n ++ o ∷ rest)
unfolding place_from
place_from-fixed n o items rest e f = rw e (rw (checked-Fits (count_down o n ++ o ∷ rest) f))

-- Take notes of which some are fixed, the first of them of order `o`. If there are any orders for the
-- notes at all that grow from note to note, fit the column and leave the fixed notes theirs, then
-- `_place_orders` gives such orders; so it gives up only where there is no room.
pub place_orders-arranges :
    (os : List ℤ) (o : ℤ) (items : List Item) (wanted : List ℤ)
    → Growing under (writables os ++ (false, o) ∷ items) wanted
    → All Fits wanted
    → (out : List ℤ) × (place_orders (writables os ++ (false, o) ∷ items) ≡ some out)
      × Growing under (writables os ++ (false, o) ∷ items) out
      × All Fits out
unfolding place_orders
place_orders-arranges os o items wanted g f =
    let (room, fits, rest', later, f') = first_fixed under os o items wanted g f in
    let (rest, e, below) = place_after_complete o o 0 items rest' (omega integers) later in
    let grows =
      place_after-Growing o o 0 items rest (plus_zero o)
        (Growing-FixedGrow o o items rest' (omega arith) later) e in
    let high = Below-hi rest rest' below (All-map _ _ rest' (λ x p. p.1) f') in
    let all_fit : All Fits (count_down o (length os) ++ o ∷ rest) =
      All-append Fits (count_down o (length os)) (o ∷ rest)
        (count_down-Fits o (length os) (omega integers) fits.1)
        (
          fits,
          All-both _ _ Fits rest (λ x l h. (l, h)) (Growing-lo o items rest fits.0 grows) high,
        ) in
    (
      count_down o (length os) ++ o ∷ rest,
      place_from-writables 0 (length os) os ((false, o) ∷ items) (omega arith)
          ∙ place_from-fixed (length os) o items rest e all_fit,
      count_down-Growing under os o items rest room grows,
      all_fit,
    )
