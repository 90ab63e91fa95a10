-- ===== src/Prelude/Strings.antt =====
-- Python's `str` as a list of code points, with the methods that the server uses.
use Prim.Native.Nat.{ℕ, ◌+◌, ◌≤◌}
use Prim.Native.Char.{code}
use Prim.Native.String.{String}
use mathlib.Core.Path.{◌≡◌, refl}
use mathlib.Core.Logic.{◌↔◌}
use mathlib.Core.Bool.{Bool, true, false, ◌&&◌, ◌||◌}
use mathlib.Core.List.{List, [], ◌∷◌, reverse, reverse_aux}
use native.Mathlib.Omega.{arith}
use local_ai_search.Prelude.Booleans.{leb, ltb, ◌==◌, if◌then◌else◌}
use local_ai_search.Prelude.Lists.{length}

abbrev pub Text : Type 0
Text = List ℕ

-- The code points of a literal.
abbrev pub codes : String → Text
codes String.[] = []
codes (String.◌∷◌ c s) = code c ∷ codes s

abbrev pub text_eq : Text → Text → Bool
text_eq [] [] = true
text_eq [] (d ∷ t) = false
text_eq (c ∷ s) [] = false
text_eq (c ∷ s) (d ∷ t) = (c == d) && text_eq s t

pub text_eq_iff : (s t : Text) → (text_eq s t ≡ true) ↔ (s ≡ t)
text_eq_iff [] [] = (λ _. refl, λ _. refl)
text_eq_iff [] (d ∷ t) = (λ h. cc, λ h. cc)
text_eq_iff (c ∷ s) [] = (λ h. cc, λ h. cc)
text_eq_iff (c ∷ s) (d ∷ t) = ground (arith, text_eq_iff s t)

-- `str.isspace` of one character
abbrev pub is_space : ℕ → Bool
is_space c =
    leb 9 c && leb c 13
    || leb 28 c && leb c 32
    || c == 0x85
    || c == 0xa0
    || c == 0x1680
    || leb 0x2000 c && leb c 0x200a
    || c == 0x2028
    || c == 0x2029
    || c == 0x202f
    || c == 0x205f
    || c == 0x3000

unfoldable pub lstrip : Text → Text
lstrip [] = []
lstrip (c ∷ s) = let rest = lstrip s in if is_space c then rest else c ∷ s

unfoldable pub strip : Text → Text
unfolding lstrip
strip s = reverse (lstrip (reverse (lstrip s)))

push_part : Bool → ℕ → List Text → List Text
push_part true c parts = [] ∷ parts
push_part false c [] = (c ∷ []) ∷ []
push_part false c (part ∷ parts) = (c ∷ part) ∷ parts

-- `s.split(sep)` at one character: always at least one part
unfoldable pub split : ℕ → Text → List Text
unfolding push_part
split sep [] = [] ∷ []
split sep (c ∷ s) = push_part (c == sep) c (split sep s)

-- `len(s.encode("utf-8"))`
unfoldable pub utf8_length : Text → ℕ
utf8_length [] = 0
utf8_length (c ∷ s) =
    (if ltb c 0x80 then 1 else if ltb c 0x800 then 2 else if ltb c 0x10000 then 3 else 4)
    + utf8_length s

length-lstrip-le : (s : Text) → length (lstrip s) ≤ length s
unfolding lstrip
length-lstrip-le [] = omega arith
length-lstrip-le (c ∷ s) = ground (arith, length-lstrip-le s)

length-reverse_aux : (s t : Text) → length (reverse_aux s t) ≡ length s + length t
length-reverse_aux [] t = omega arith
length-reverse_aux (c ∷ s) t = omega (arith, length-reverse_aux s (c ∷ t))

pub length-strip-le : (s : Text) → length (strip s) ≤ length s
unfolding strip
length-strip-le s = omega (
  arith,
  length-lstrip-le s,
  length-lstrip-le (reverse (lstrip s)),
  length-reverse_aux (lstrip s) [],
  length-reverse_aux (lstrip (reverse (lstrip s))) [],
)
