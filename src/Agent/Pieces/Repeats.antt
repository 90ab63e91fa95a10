-- ===== src/Agent/Pieces/Repeats.antt =====
-- What `_truncate_repetition` and `_chunk_text_for_streaming` of backend/app/services/ai_agent.py leave of
-- an answer.
use local_ai_search.Prelude.{
  ℕ, ◌+◌, ◌≤◌, ◌<◌, ◌≡◌, true, Option, List, [], ◌∷◌, ◌++◌, Text, length, take, drop, All,
}
use local_ai_search.Agent.Pieces.{is_filler}

abbrev pub flat : List Text → Text
flat [] = []
flat (s ∷ parts) = s ++ flat parts

abbrev IsPiece : (chunk_size : ℕ) → Text → Type 0
IsPiece chunk_size s = (0 < length s) × (length s ≤ chunk_size)

-- From `start` on, a piece of at least 20 characters stands three times or more one after the other; what
-- is left is the text up to the end of its first occurrence, without the fillers at the end.
abbrev pub CutAfterRepeat : (text truncated : Text) → Type 0
CutAfterRepeat text truncated =
    (start pattern_len : ℕ) × (20 ≤ pattern_len)
    × (rest : Text) × (let pattern = take pattern_len (drop start text) in
        drop start text ≡ pattern ++ (pattern ++ (pattern ++ rest)))
    × (fillers : Text) × (take (start + pattern_len) text ≡ truncated ++ fillers)
    × All (λ c. is_filler c ≡ true) fillers
