-- ===== src/Agent/Pieces.antt =====
-- `_truncate_repetition` and `_chunk_text_for_streaming` of backend/app/services/ai_agent.py.
pub mod Repeats
use mathlib.Core.List.{reverse}
use local_ai_search.Prelude.{
  ℕ, zero, suc, ◌+◌, ◌-◌, ◌*◌, ◌/◌, Bool, ◌&&◌, ◌||◌, Option, none, some, List, [], ◌∷◌, Text,
  if◌then◌else◌, leb, ltb, ◌==◌, length, take, drop, min, text_eq,
}

-- The inner loop at the text from `pos` on: how often the pattern stands there one after the other. The
-- pattern is not empty, so the length of the text is fuel enough.
unfoldable pub count_repeats : (fuel : ℕ) → (pattern : Text) → Text → ℕ
count_repeats zero pattern s = 0
count_repeats (suc fuel) pattern s =
    let rest = count_repeats fuel pattern (drop (length pattern) s) in
    if leb (length pattern) (length s) && text_eq (take (length pattern) s) pattern
    then suc rest
    else 0

-- `s.rstrip("-_ ")`
abbrev pub is_filler : ℕ → Bool
is_filler c = (c == b'-') || ((c == b'_') || (c == b' '))

unfoldable pub drop_fillers : Text → Text
drop_fillers [] = []
drop_fillers (c ∷ s) = let rest = drop_fillers s in if is_filler c then rest else c ∷ s

abbrev pub rstrip_fillers : Text → Text
rstrip_fillers s = reverse (drop_fillers (reverse s))

abbrev pub or_else : {A : Type 0} → Option A → Option A → Option A
or_else none other = other
or_else (some a) other = some a

-- The loop over `start`, with the number of its rounds: the truncated text, if one is returned.
unfoldable pub try_starts : (pattern_len max_repeats : ℕ) → Text → (start rounds : ℕ) → Option Text
unfolding count_repeats drop_fillers
try_starts pattern_len max_repeats text start zero = none
try_starts pattern_len max_repeats text start (suc rounds) =
    let rest = try_starts pattern_len max_repeats text (suc start) rounds in
    let s = drop start text in
    if ltb max_repeats (count_repeats (suc (length text)) (take pattern_len s) s)
    then some (rstrip_fillers (take (start + pattern_len) text))
    else rest

-- The loop over `range(pattern_len, bound, 5)`, with fuel for its rounds.
unfoldable pub try_lengths : (fuel : ℕ) → (pattern_len bound max_repeats : ℕ) → Text → Option Text
unfolding try_starts
try_lengths zero pattern_len bound max_repeats text = none
try_lengths (suc fuel) pattern_len bound max_repeats text =
    let rest = try_lengths fuel (pattern_len + 5) bound max_repeats text in
    if ltb pattern_len bound
    then or_else
        (try_starts pattern_len max_repeats text 0 (length text - pattern_len * (max_repeats + 1)))
        rest
    else none

abbrev pub or_text : Option Text → Text → Text
or_text none text = text
or_text (some truncated) text = truncated

-- The bound of the lengths is at most 200, and each round adds 5.
unfoldable pub truncate_repetition : Text → (min_repeat_len max_repeats : ℕ) → Text
unfolding try_lengths
truncate_repetition text min_repeat_len max_repeats =
    or_text (try_lengths 201 min_repeat_len (min 200 (length text / 3)) max_repeats text) text

-- `[text[i : i + chunk_size] for i in range(0, len(text), chunk_size)]`, with fuel for the rounds
unfoldable pub pieces : (fuel : ℕ) → (chunk_size : ℕ) → Text → List Text
pieces zero chunk_size text = []
pieces (suc fuel) chunk_size [] = []
pieces (suc fuel) chunk_size (c ∷ text) =
    take chunk_size (c ∷ text) ∷ pieces fuel chunk_size (drop chunk_size (c ∷ text))

unfoldable pub chunk_text_for_streaming : Text → (chunk_size : ℕ) → List Text
unfolding pieces truncate_repetition
chunk_text_for_streaming text chunk_size =
    let text' = truncate_repetition text 20 2 in pieces (length text') chunk_size text'
