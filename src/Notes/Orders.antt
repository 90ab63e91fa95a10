-- ===== src/Notes/Orders.antt =====
-- `_place_orders` of backend/app/routers/notes.py. An item is whether its note may be written, and its order.
pub mod Arranged
pub mod Placed
use local_ai_search.Prelude.{
  ℕ, zero, suc, ◌+◌, ℤ, pos, negsuc, ◌+ℤ◌, ◌-ℤ◌, ltb, ltb_ℤ, leb_ℤ, Bool, true, false, not, ◌&&◌,
  Option, none, some, List, [], ◌∷◌, ◌++◌, if◌then◌else◌, any, length,
}

abbrev pub Item : Type 0
Item = Bool × ℤ

-- `lo` and `hi`: the bounds of an INTEGER column
abbrev pub lo : ℤ
lo = negsuc 2147483647

abbrev pub hi : ℤ
hi = pos 2147483647

abbrev pub cons_order : ℤ → Option (List ℤ) → Option (List ℤ)
cons_order x none = none
cons_order x (some out) = some (x ∷ out)

-- The loop "between fixed notes, and after the last one", behind a fixed note of order `fo` and `k`
-- notes that may be written.
unfoldable pub place_after : (fo : ℤ) (k : ℕ) → List Item → Option (List ℤ)
place_after fo k [] = some []
place_after fo k ((true, o) ∷ items) =
    cons_order (fo +ℤ pos 1 +ℤ pos k) (place_after fo (suc k) items)
place_after fo k ((false, o) ∷ items) =
    let rest = cons_order o (place_after o 0 items) in
    if ltb 0 k && ltb_ℤ (o -ℤ fo -ℤ pos 1) (pos k) then none else rest

-- "before the first fixed note: count down from it": the orders of the last `k` notes before it
unfoldable pub count_down : (first_o : ℤ) → ℕ → List ℤ
count_down first_o zero = []
count_down first_o (suc k) = (first_o -ℤ pos 1 -ℤ pos k) ∷ count_down first_o k

-- `list(range(n))`, from `i` on
unfoldable pub range_from : (i n : ℕ) → List ℤ
range_from i zero = []
range_from i (suc n) = pos i ∷ range_from (suc i) n

abbrev pub append_orders : List ℤ → Option (List ℤ) → Option (List ℤ)
append_orders before none = none
append_orders before (some out) = some (before ++ out)

-- `return None` if an order does not fit the column
abbrev pub in_column : ℤ → Bool
in_column o = leb_ℤ lo o && leb_ℤ o hi

abbrev pub checked : Option (List ℤ) → Option (List ℤ)
checked none = none
checked (some out) = if any (λ o. not (in_column o)) out then none else some out

-- The items behind `k` notes that may be written, up to the first fixed one.
unfoldable pub place_from : (k : ℕ) → List Item → Option (List ℤ)
unfolding place_after count_down range_from
place_from k [] = some (range_from 0 k)
place_from k ((true, o) ∷ items) = place_from (suc k) items
place_from k ((false, o) ∷ items) =
    checked (append_orders (count_down o k) (cons_order o (place_after o 0 items)))

unfoldable pub place_orders : List Item → Option (List ℤ)
unfolding place_from
place_orders items = place_from 0 items
