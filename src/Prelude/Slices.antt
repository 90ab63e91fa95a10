-- ===== src/Prelude/Slices.antt =====
-- Python's `s[a:b]`, `s.startswith` and `s.rfind(sub, start, end)` at positions that are not negative.
use Prim.Native.Nat.{ℕ, zero, suc, ◌+◌, ◌-◌, ◌≤◌, ◌<◌, min}
use mathlib.Core.Path.{◌≡◌}
use mathlib.Core.Bool.{Bool, true, false, ◌&&◌}
use mathlib.Core.List.{List, [], ◌∷◌}
use mathlib.Core.Option.{Option, none, some}
use native.Mathlib.Omega.{arith}
use local_ai_search.Prelude.Booleans.{leb, ◌==◌, if◌then◌else◌}
use local_ai_search.Prelude.Lists.{length, take, drop, length-take, length-drop}
use local_ai_search.Prelude.Strings.{Text}

module _ {ℓ} {A : Type ℓ} where
  -- `xs[a:b]`
  abbrev pub slice : List A → ℕ → ℕ → List A
  slice xs a b = take (b - a) (drop a xs)

  pub length-slice : (xs : List A) (a b : ℕ) → length (slice xs a b) ≡ min (b - a) (length xs - a)
  length-slice xs a b = omega (arith, length-take (b - a) (drop a xs), length-drop a xs)

abbrev pub starts_with : Text → Text → Bool
starts_with s [] = true
starts_with [] (d ∷ t) = false
starts_with (c ∷ s) (d ∷ t) = (c == d) && starts_with s t

-- The positions `start + k`, for `k` from `rounds - 1` down to 0, where `sub` stands in `s`.
rfind_from : Text → Text → (start rounds : ℕ) → Option ℕ
rfind_from s sub start zero = none
rfind_from s sub start (suc k) =
    let rest = rfind_from s sub start k in
    if starts_with (drop (start + k) s) sub then some (start + k) else rest

-- The last position from which `sub` lies within `s[start:end]`; `none` is -1. The `end` is at most
-- the length of the text.
unfoldable pub rfind : Text → Text → (start end : ℕ) → Option ℕ
unfolding rfind_from
rfind s sub start end =
    if leb (start + length sub) end
    then rfind_from s sub start (end - length sub - start + 1)
    else none

rfind_from-lt :
    (s sub : Text) (start rounds : ℕ) {pos : ℕ}
    → rfind_from s sub start rounds ≡ some pos
    → (start ≤ pos) × (pos < start + rounds)
unfolding rfind_from
rfind_from-lt s sub start zero e = absurd (ground arith)
rfind_from-lt s sub start (suc k) {pos} e = ground (arith, rfind_from-lt s sub start k {pos = pos})

-- A match lies within the bounds.
pub rfind_bounds :
    (s sub : Text) (start end : ℕ) {pos : ℕ}
    → rfind s sub start end ≡ some pos
    → (start ≤ pos) × (pos + length sub ≤ end)
unfolding rfind
rfind_bounds s sub start end {pos} e =
    ground (arith, rfind_from-lt s sub start (end - length sub - start + 1) {pos = pos})
