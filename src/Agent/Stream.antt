-- ===== src/Agent/Stream.antt =====
-- `_stream_filtered` of backend/app/services/ai_agent.py: the answer of the model, less its tool calls. The
-- tokens of `stream_chat_raw` are a list, as are the texts that the generator yields.
pub mod Index
pub mod Clean
pub mod Plain
use local_ai_search.Prelude.{
  ℕ, zero, suc, ◌+◌, ◌-◌, Bool, true, false, Option, none, some, List, [], ◌∷◌, ◌++◌, Text, codes,
  map, leb, ltb, if◌then◌else◌, length, take, drop, any, min, starts_with, strip, take_last,
}
use local_ai_search.Agent.Stream.Index.{index_of}

-- `_OPEN_TAGS` and `_CLOSE_TAGS`
abbrev pub open_tags : List Text
open_tags = codes "<tool_call>" ∷ codes "<|tool_call>" ∷ []

abbrev pub close_tags : List Text
close_tags = codes "</tool_call>" ∷ codes "<tool_call|>" ∷ []

-- `if idx != -1 and (pos == -1 or idx < pos): pos = idx`
abbrev pub earlier : (pos idx : Option ℕ) → Option ℕ
earlier pos none = pos
earlier none (some idx) = some idx
earlier (some pos) (some idx) = if ltb idx pos then some idx else some pos

-- The loop of `_find_open`; -1 is `none`.
unfoldable pub first_of : List Text → (pos : Option ℕ) → Text → Option ℕ
first_of [] pos s = pos
first_of (tag ∷ tags) pos s = first_of tags (earlier pos (index_of tag s)) s

unfoldable pub find_open : Text → Option ℕ
unfolding first_of
find_open s = first_of open_tags none s

abbrev pub end_or : Text → (start : ℕ) → Option ℕ → (rest : Option ℕ) → Option ℕ
end_or tag start none rest = rest
end_or tag start (some idx) rest = some (start + idx + length tag)

-- The loop of `_find_close`, with `s.find(tag, start)` as the search from the start on.
unfoldable pub close_end : List Text → Text → (start : ℕ) → Option ℕ
close_end [] s start = none
close_end (tag ∷ tags) s start =
    end_or tag start (index_of tag (drop start s)) (close_end tags s start)

unfoldable pub find_close : Text → (start : ℕ) → Option ℕ
unfolding close_end
find_close s start = close_end close_tags s start

-- The loop of `_partial_hold`: `i` goes down to `_MIN_HOLD`, which is 2.
unfoldable pub hold_from : (i : ℕ) → Text → ℕ
hold_from zero s = 0
hold_from (suc i) s =
    let rest = hold_from i s in
    if leb 2 (suc i)
    then (if any (λ tag. starts_with tag (take_last (suc i) s)) open_tags then suc i else rest)
    else 0

-- The longest open tag has 12 characters.
unfoldable pub partial_hold : Text → ℕ
unfolding hold_from
partial_hold s = hold_from (min 12 (length s)) s

-- `if text: yield text`
abbrev pub yield_some : Text → List Text → List Text
yield_some [] outs = outs
yield_some (c ∷ s) outs = (c ∷ s) ∷ outs

-- A text that is yielded before the rest of the loop.
abbrev pub yield_first : Text → Option (List Text × Text) → Option (List Text × Text)
yield_first s none = none
yield_first s (some (outs, buffer)) = some (yield_some s outs, buffer)

-- The `while` loop, with fuel: what it yields, and the buffer behind it. `none` means that the fuel ran
-- out.
unfoldable pub drain : (fuel : ℕ) → Text → Option (List Text × Text)
unfolding find_open find_close partial_hold
drain zero buffer = none
drain (suc fuel) buffer = elim (find_open buffer) [
  | none ↦
      let emit_end = length buffer - partial_hold buffer in
      some (yield_some (take emit_end buffer) [], drop emit_end buffer)
  | some tag_start ↦ yield_first (take tag_start buffer) (elim (find_close buffer tag_start) [
    | none ↦ some ([], drop tag_start buffer)
    | some end ↦ drain fuel (drop end buffer)
  ])
]

-- Every round but the last drops a tag, so the length of the buffer is fuel enough.
abbrev pub drain_all : Text → Option (List Text × Text)
drain_all buffer = drain (suc (length buffer)) buffer

-- `<\|?tool_call\|?>`
abbrev pub any_tags : List Text
any_tags =
    codes "<tool_call>" ∷ codes "<|tool_call>" ∷ codes "<tool_call|>" ∷ codes "<|tool_call|>" ∷ []

abbrev pub cut_at : Option ℕ → Text → Text
cut_at none s = s
cut_at (some pos) s = take pos s

-- `re.sub(..., "", buffer).strip()`: the expression takes all that is behind its first match.
unfoldable pub clean_up : Text → Text
unfolding first_of strip
clean_up buffer = strip (cut_at (first_of any_tags none buffer) buffer)

abbrev pub then_yield : List Text → Option (List Text) → Option (List Text)
then_yield outs none = none
then_yield outs (some more) = some (outs ++ more)

-- The rest of the tokens, with what is left in the buffer.
unfoldable pub filter_tokens : (tokens : List Text) (buffer : Text) → Option (List Text)
unfolding drain clean_up
filter_tokens [] buffer = some (yield_some (clean_up buffer) [])
filter_tokens (token ∷ tokens) buffer = elim (drain_all (buffer ++ token)) [
  | none ↦ none
  | some (outs, rest) ↦ then_yield outs (filter_tokens tokens rest)
]

unfoldable pub stream_filtered : List Text → Option (List Text)
unfolding filter_tokens
stream_filtered tokens = filter_tokens tokens []
