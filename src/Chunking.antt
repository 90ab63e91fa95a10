-- ===== src/Chunking.antt =====
-- `chunk_text` of backend/app/services/parser.py, over the code points of a text.
pub mod Windows
pub mod Bounds
mod Tests
use local_ai_search.Prelude.{
  ℕ, zero, suc, ◌+◌, ◌-◌, ◌/◌, Option, none, some, List, [], ◌∷◌, Text, codes, strip, ltb, leb,
  text_eq, ◌||◌, if◌then◌else◌, length, min, max, slice, rfind, Bool, true, false,
}

-- `pos > bound` picks the end `pos + skip`; a text not found (-1) is never past the bound.
abbrev pub pick : Option ℕ → (bound skip otherwise : ℕ) → ℕ
pick none bound skip otherwise = otherwise
pick (some pos) bound skip otherwise = if ltb bound pos then pos + skip else otherwise

-- The loop over the sentence separators.
pub sentence_end : Text → (chunk_size start end : ℕ) → List Text → ℕ
sentence_end text chunk_size start end [] = end
sentence_end text chunk_size start end (sep ∷ seps) =
    pick (rfind text sep (start + chunk_size / 2) end) start (length sep)
      (sentence_end text chunk_size start end seps)

-- The end of a chunk that does not reach the end of the text: behind a paragraph, a line or a
-- sentence, or where it was.
unfoldable pub break_point : Text → (chunk_size start end : ℕ) → ℕ
unfolding sentence_end
break_point text chunk_size start end =
    pick (rfind text (codes "\n\n") start end) (start + chunk_size / 2) 2 (
      pick (rfind text (codes "\n") (start + chunk_size / 2) end) start 1
        (sentence_end text chunk_size start end (codes ". " ∷ codes "! " ∷ codes "? " ∷ [])))

unfoldable pub chunk_end : Text → (chunk_size start : ℕ) → ℕ
unfolding break_point
chunk_end text chunk_size start =
    let end = min (start + chunk_size) (length text) in
    if ltb end (length text) then break_point text chunk_size start end else end

-- `if chunk: chunks.append(chunk)`, with the chunks of the later rounds behind it.
abbrev pub keep_chunk : Text → List Text → List Text
keep_chunk [] chunks = chunks
keep_chunk (c ∷ chunk) chunks = (c ∷ chunk) ∷ chunks

abbrev pub keep_chunk? : Text → Option (List Text) → Option (List Text)
keep_chunk? chunk none = none
keep_chunk? chunk (some chunks) = some (keep_chunk chunk chunks)

-- The `while` loop from `start`, with fuel; `none` means that the fuel ran out.
unfoldable pub chunk_loop : (fuel : ℕ) → Text → (chunk_size overlap start : ℕ) → Option (List Text)
chunk_loop zero text chunk_size overlap start = none
chunk_loop (suc fuel) text chunk_size overlap start =
    let end = chunk_end text chunk_size start in
    let rest = chunk_loop fuel text chunk_size overlap (max (end - overlap) (start + 1)) in
    if ltb start (length text)
    then keep_chunk? (strip (slice text start end))
        (if leb (length text) end then some [] else rest)
    else some []

-- The start grows in every round, so the length of the text is fuel enough.
unfoldable pub chunk_text : Text → (chunk_size overlap : ℕ) → Option (List Text)
unfolding chunk_loop strip
chunk_text text chunk_size overlap =
    if text_eq text [] || text_eq (strip text) []
    then some []
    else chunk_loop (length text + 1) text chunk_size overlap 0
