-- ===== src/Chunking/Windows.antt =====
-- The windows of the text that `chunk_text` of backend/app/services/parser.py cuts its chunks from.
use local_ai_search.Prelude.{
  ℕ, zero, suc, ◌+◌, ◌-◌, ◌/◌, ◌≤◌, ◌<◌, ◌≡◌, refl, Option, none, some, List, [], ◌∷◌, Text, codes,
  strip, arith, ltb, leb, length, min, max, slice, rfind_bounds, Bool-cases, inl, inr, true,
}
use local_ai_search.Chunking.{pick, sentence_end, break_point, chunk_end, keep_chunk, chunk_loop}

-- The windows from `start` to the end `n` of the text: none is empty or longer than the chunk size,
-- each begins after the start of the one before it and no later than its end, and the last ends the
-- text. So they cover the text without a gap.
pub data Windows (n chunk_size : ℕ) : ℕ → List (ℕ × ℕ) → Type 0 where
  last :
      {start e : ℕ}
      → e ≡ n
      → start < e
      → e ≤ start + chunk_size
      → Windows n chunk_size start ((start, e) ∷ [])
  more :
      {start e next : ℕ} {rest : List (ℕ × ℕ)}
      → start < e
      → e ≤ start + chunk_size
      → e < n
      → start < next
      → next ≤ e
      → Windows n chunk_size next rest
      → Windows n chunk_size start ((start, e) ∷ rest)

-- The chunks of the windows: stripped, and dropped if nothing is left.
abbrev pub chunks_of : Text → List (ℕ × ℕ) → List Text
chunks_of text [] = []
chunks_of text ((a, b) ∷ windows) = keep_chunk (strip (slice text a b)) (chunks_of text windows)

pick_bounds :
    (found : Option ℕ) (start bound skip otherwise end : ℕ)
    → start ≤ bound
    → ((pos : ℕ) → found ≡ some pos → pos + skip ≤ end)
    → (start < otherwise) × (otherwise ≤ end)
    → (start < pick found bound skip otherwise) × (pick found bound skip otherwise ≤ end)
pick_bounds none start bound skip otherwise end h fits o = o
pick_bounds (some pos) start bound skip otherwise end h fits o = ground (arith, fits pos refl)

module _ (text : Text) (chunk_size start end : ℕ) (some_room : start < end) where
  sentence_end_bounds :
      (seps : List Text)
      → (start < sentence_end text chunk_size start end seps)
        × (sentence_end text chunk_size start end seps ≤ end)
  unfolding sentence_end
  sentence_end_bounds [] = (some_room, omega arith)
  sentence_end_bounds (sep ∷ seps) =
      pick_bounds _ start start (length sep) _ end (omega arith)
        (λ pos e. (rfind_bounds text sep (start + chunk_size / 2) end e).1)
        (sentence_end_bounds seps)

  break_point_bounds :
      (start < break_point text chunk_size start end)
      × (break_point text chunk_size start end ≤ end)
  unfolding break_point
  break_point_bounds =
      pick_bounds _ start (start + chunk_size / 2) 2 _ end (omega arith)
        (λ pos e. (rfind_bounds text (codes "\n\n") start end e).1)
        (pick_bounds _ start start 1 _ end (omega arith)
          (λ pos e. (rfind_bounds text (codes "\n") (start + chunk_size / 2) end e).1)
          (sentence_end_bounds (codes ". " ∷ codes "! " ∷ codes "? " ∷ [])))

-- A chunk is not empty, and no longer than the chunk size.
chunk_end_bounds :
    (text : Text) (chunk_size start : ℕ)
    → 0 < chunk_size
    → start < length text
    → (start < chunk_end text chunk_size start)
      × (chunk_end text chunk_size start ≤ start + chunk_size)
      × (chunk_end text chunk_size start ≤ length text)
unfolding chunk_end
chunk_end_bounds text chunk_size start p h = ground (
  arith,
  break_point_bounds text chunk_size start (min (start + chunk_size) (length text)) (omega arith),
)

-- From any start inside the text and with fuel for the rest of it the loop ends, and its chunks are
-- those of windows that cover the rest.
pub chunk_loop-Windows :
    (fuel : ℕ) (text : Text) (chunk_size overlap start : ℕ)
    → 0 < chunk_size
    → start < length text
    → length text < start + fuel
    → (windows : List (ℕ × ℕ)) × (chunk_loop fuel text chunk_size overlap start
        ≡ some (chunks_of text windows))
      × Windows (length text) chunk_size start windows
unfolding chunk_loop
chunk_loop-Windows zero text chunk_size overlap start p h f = absurd (omega arith)
chunk_loop-Windows (suc fuel) text chunk_size overlap start p h f =
    let going : ltb start (length text) ≡ true = ground arith in
    let (after, short, inside) = chunk_end_bounds text chunk_size start p h in
    elim (Bool-cases (leb (length text) (chunk_end text chunk_size start))) [
      | inl done ↦ (
        (start, chunk_end text chunk_size start) ∷ [],
        rw (going, done),
        last (ground arith) after short,
      )
      | inr further ↦
          let (windows, e, w) =
            chunk_loop-Windows fuel text chunk_size overlap
              (max (chunk_end text chunk_size start - overlap) (start + 1)) p (ground arith)
              (omega arith) in
          (
            (start, chunk_end text chunk_size start) ∷ windows,
            rw (going, further, e),
            more after short (ground arith) (omega arith) (omega arith) w,
          )
    ]
