-- ===== src/Chunking/Tests.antt =====
-- Runs of `chunk_text` (backend/app/services/parser.py), and its theorem at a concrete text.
use local_ai_search.Prelude.{
  ℕ, ◌≡◌, ◌≢◌, refl, some, List, [], ◌∷◌, Text, codes, strip, arith, length, rfind, All,
}
use local_ai_search.Chunking.{chunk_end, chunk_text}
use local_ai_search.Chunking.Windows.{Windows, chunks_of}
use local_ai_search.Chunking.Bounds.{IsChunk, chunk_text-covers}

abbrev note : Text
note = codes "One. Two three.\nFour five six seven"

-- The first chunk ends behind the line, and the next begins in its overlap.
chunks_run :
    chunk_text note 20 4
    ≡ some (codes "One. Two three." ∷ codes "ee.\nFour five six se" ∷ codes "x seven" ∷ [])
unfolding chunk_text chunk_end rfind
chunks_run = refl

note-solid : strip note ≢ []
unfolding strip
note-solid e = cc

chunk_text-covers_example :
    (windows : List (ℕ × ℕ)) × (chunk_text note 20 4 ≡ some (chunks_of note windows))
    × Windows (length note) 20 0 windows
    × All (IsChunk 20) (chunks_of note windows)
chunk_text-covers_example = chunk_text-covers note 20 4 (omega arith) note-solid
