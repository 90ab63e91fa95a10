-- ===== src/Chunking/Bounds.antt =====
-- What `chunk_text` of backend/app/services/parser.py returns.
use local_ai_search.Prelude.{
  ℕ, ◌+◌, ◌≤◌, ◌<◌, ◌≡◌, ◌≢◌, refl, some, List, [], ◌∷◌, Text, text_eq, text_eq_iff, strip, arith,
  length, slice, length-slice, All, Bool-cases, inl, inr, length-strip-le,
}
use local_ai_search.Chunking.{keep_chunk, chunk_text}
use local_ai_search.Chunking.Windows.{Windows, last, more, chunks_of, chunk_loop-Windows}

-- A chunk has something in it, and no more characters than the chunk size.
abbrev pub IsChunk : (chunk_size : ℕ) → Text → Type 0
IsChunk chunk_size chunk = (0 < length chunk) × (length chunk ≤ chunk_size)

keep_chunk-IsChunk :
    (chunk_size : ℕ) (chunk : Text) (chunks : List Text)
    → length chunk ≤ chunk_size
    → All (IsChunk chunk_size) chunks
    → All (IsChunk chunk_size) (keep_chunk chunk chunks)
keep_chunk-IsChunk chunk_size [] chunks short h = h
keep_chunk-IsChunk chunk_size (c ∷ chunk) chunks short h = ((omega arith, short), h)

slice-short :
    (text : Text) (chunk_size a b : ℕ)
    → b ≤ a + chunk_size
    → length (strip (slice text a b)) ≤ chunk_size
slice-short text chunk_size a b h =
    omega (arith, length-strip-le (slice text a b), length-slice text a b)

chunks_of-IsChunk :
    (text : Text) (n chunk_size start : ℕ) (windows : List (ℕ × ℕ))
    → Windows n chunk_size start windows
    → All (IsChunk chunk_size) (chunks_of text windows)
chunks_of-IsChunk text n chunk_size start windows (last {start = a} {e = b} end after short) =
    keep_chunk-IsChunk chunk_size (strip (slice text a b)) []
      (slice-short text chunk_size a b short) tt
chunks_of-IsChunk text n chunk_size start windows
      (more {start = a} {e = b} {next = next} {rest = rest} after short inside grows meets w) =
    keep_chunk-IsChunk chunk_size (strip (slice text a b)) (chunks_of text rest)
      (slice-short text chunk_size a b short) (chunks_of-IsChunk text n chunk_size next rest w)

-- A text with a character that is no white space, and a chunk size of at least 1: whatever the
-- overlap, the loop ends within its fuel, and the chunks are those of windows from the first
-- character to the last that leave no gap; each chunk has a character and none is longer than the
-- chunk size.
pub chunk_text-covers :
    (text : Text) (chunk_size overlap : ℕ)
    → 0 < chunk_size
    → strip text ≢ []
    → (windows : List (ℕ × ℕ)) × (chunk_text text chunk_size overlap
        ≡ some (chunks_of text windows))
      × Windows (length text) chunk_size 0 windows
      × All (IsChunk chunk_size) (chunks_of text windows)
unfolding chunk_text
chunk_text-covers [] chunk_size overlap p h = absurd (h refl)
chunk_text-covers (c ∷ text) chunk_size overlap p h =
    elim (Bool-cases (text_eq (strip (c ∷ text)) [])) [
      | inl blank ↦ absurd (h ((text_eq_iff (strip (c ∷ text)) []).0 blank))
      | inr solid ↦
          let (windows, e, w) =
            chunk_loop-Windows (length (c ∷ text) + 1) (c ∷ text) chunk_size overlap 0 p
              (omega arith) (omega arith) in
          (
            windows,
            rw solid e,
            w,
            chunks_of-IsChunk (c ∷ text) (length (c ∷ text)) chunk_size 0 windows w,
          )
    ]
