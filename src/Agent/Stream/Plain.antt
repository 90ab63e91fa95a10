-- ===== src/Agent/Stream/Plain.antt =====
-- An answer without tool calls passes through `_stream_filtered` of backend/app/services/ai_agent.py.
use local_ai_search.Prelude.{
  ℕ, zero, suc, ◌-◌, ◌≤◌, ◌<◌, ◌≡◌, ◌≢◌, refl, Bool, true, false, none, some, List, [], ◌∷◌, Text,
  arith, leb, ◌==◌, length, take, drop, length-drop, min, select, starts_with, take_last, strip,
  All, All-drop, Bool-cases, inl, inr,
}
use local_ai_search.Agent.Stream.Index.{index_of}
use local_ai_search.Agent.Stream.{
  first_of, find_open, hold_from, partial_hold, yield_some, drain, clean_up, filter_tokens,
  stream_filtered,
}

-- A text without the character `<`.
abbrev pub IsPlain : Text → Type 0
IsPlain = All (λ c. c ≢ b'<')

index_of-plain : (sub s : Text) → IsPlain s → index_of (b'<' ∷ sub) s ≡ none
unfolding index_of
index_of-plain sub [] h = refl
index_of-plain sub (c ∷ s) h =
    let miss : (c == b'<') ≡ false = ground (arith, h.0) in rw miss (rw (index_of-plain sub s h.1))

find_open-plain : (s : Text) → IsPlain s → find_open s ≡ none
unfolding find_open first_of
find_open-plain s h = rw (index_of-plain _ s h) (rw (index_of-plain _ s h))

starts_with-plain : (tag s : Text) → 0 < length s → IsPlain s → starts_with (b'<' ∷ tag) s ≡ false
starts_with-plain tag [] p h = absurd (omega arith)
starts_with-plain tag (c ∷ s) p h = ground (arith, h.0)

hold_from-plain : (i : ℕ) (s : Text) → i ≤ length s → IsPlain s → hold_from i s ≡ 0
unfolding hold_from
hold_from-plain zero s p h = refl
hold_from-plain (suc i) s p h =
    let tail = take_last (suc i) s in
    let some_tail : 0 < length tail = omega (arith, length-drop (length s - suc i) s) in
    let plain : IsPlain tail = All-drop (λ c. c ≢ b'<') (length s - suc i) s h in
    let rest = hold_from-plain i s (omega arith) h in
    elim (Bool-cases (leb 2 (suc i))) [
      | inl t ↦
          rw (t, starts_with-plain _ tail some_tail plain)
            (rw (starts_with-plain _ tail some_tail plain) rest)
      | inr t ↦ rw t
    ]

partial_hold-plain : (s : Text) → IsPlain s → partial_hold s ≡ 0
unfolding partial_hold
partial_hold-plain s h = hold_from-plain (min 12 (length s)) s (omega arith) h

take-all : (s : Text) → take (length s) s ≡ s
take-all [] = refl
take-all (c ∷ s) = rw (take-all s)

drop-all : (s : Text) → drop (length s) s ≡ []
drop-all [] = refl
drop-all (c ∷ s) = drop-all s

drain-plain : (fuel : ℕ) (s : Text) → IsPlain s → drain (suc fuel) s ≡ some (yield_some s [], [])
unfolding drain
drain-plain fuel s h =
    let none_held : length s - partial_hold s ≡ length s = omega (arith, partial_hold-plain s h) in
    rw (drain, find_open-plain s h, none_held, take-all s, drop-all s)

-- The tokens that are not empty.
abbrev pub is_token : Text → Bool
is_token [] = false
is_token (c ∷ s) = true

clean_up-nil : clean_up [] ≡ []
unfolding clean_up first_of index_of strip
clean_up-nil = refl

filter_tokens-plain :
    (tokens : List Text)
    → All IsPlain tokens
    → filter_tokens tokens [] ≡ some (select is_token tokens)
unfolding filter_tokens
filter_tokens-plain [] h = rw clean_up-nil
filter_tokens-plain ([] ∷ tokens) h =
    rw (filter_tokens, drain-plain 0 [] tt, filter_tokens-plain tokens h.1)
filter_tokens-plain ((c ∷ s) ∷ tokens) h =
    rw (filter_tokens, drain-plain (suc (length s)) (c ∷ s) h.0, filter_tokens-plain tokens h.1)

-- Of an answer without the character `<`, the texts that are yielded are its tokens, unchanged and in
-- their order; only empty tokens are left out.
pub stream_filtered-plain :
    (tokens : List Text)
    → All (All (λ c. c ≢ b'<')) tokens
    → stream_filtered tokens ≡ some (select is_token tokens)
unfolding stream_filtered
stream_filtered-plain = filter_tokens-plain
