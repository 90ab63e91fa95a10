-- ===== src/Prelude/Pieces.antt =====
-- Python's `s.split(sub)` at a text, `sep.join`, `xs[-n:]` and `str(n)`.
use Prim.Native.Nat.{ℕ, zero, suc, ◌+◌, ◌-◌, ◌/◌, ◌%◌}
use mathlib.Core.Bool.{Bool, true, false}
use mathlib.Core.List.{List, [], ◌∷◌, ◌++◌}
use mathlib.Core.Option.{Option, none, some}
use local_ai_search.Prelude.Booleans.{ltb, if◌then◌else◌}
use local_ai_search.Prelude.Lists.{length, drop}
use local_ai_search.Prelude.Strings.{Text}
use local_ai_search.Prelude.Slices.{starts_with}

abbrev prepend : ℕ → Option (Text × Text) → Option (Text × Text)
prepend c none = none
prepend c (some (before, after)) = some (c ∷ before, after)

-- The text before and after the first `sub`, which is not empty; `none` if it is not there.
unfoldable pub cut? : (sub : Text) → Text → Option (Text × Text)
cut? sub [] = none
cut? sub (c ∷ s) =
    let rest = cut? sub s in
    if starts_with (c ∷ s) sub then some ([], drop (length sub) (c ∷ s)) else prepend c rest

cut_rest : (fuel : ℕ) → (sub : Text) → Text → Text
cut_rest zero sub s = s
cut_rest (suc fuel) sub s = elim (cut? sub s) [
  | none ↦ s
  | some (before, after) ↦ cut_rest fuel sub after
]

-- `s.split(sub)[-1]`; each cut takes a character at least, so the length is fuel enough.
unfoldable pub last_piece : (sub : Text) → Text → Text
unfolding cut_rest cut?
last_piece sub s = cut_rest (length s) sub s

-- `sub in s`
unfoldable pub has_text : (sub : Text) → Text → Bool
unfolding cut?
has_text sub s = elim (cut? sub s) [ none ↦ false | some (before, after) ↦ true ]

unfoldable pub join : (sep : Text) → List Text → Text
join sep [] = []
join sep (part ∷ []) = part
join sep (part ∷ part' ∷ parts) = part ++ (sep ++ join sep (part' ∷ parts))

-- `xs[-n:]`, for n of at least 1
abbrev pub take_last {ℓ} : {A : Type ℓ} → ℕ → List A → List A
take_last n xs = drop (length xs - n) xs

digits_of : (fuel : ℕ) → ℕ → Text → Text
digits_of zero n out = out
digits_of (suc fuel) n out =
    let rest = digits_of fuel (n / 10) ((b'0' + n % 10) ∷ out) in
    if ltb n 10 then (b'0' + n) ∷ out else rest

-- `str(n)`; a number has fewer digits than its value and one.
unfoldable pub decimal : ℕ → Text
unfolding digits_of
decimal n = digits_of (n + 1) n []
