-- ===== src/Agent/Tests.antt =====
-- An answer with a tool call in it, and one that is streamed (backend/app/services/ai_agent.py).
use local_ai_search.Prelude.{◌≡◌, refl, none, some, List, [], ◌∷◌, ◌++◌, Text, codes, arith, All}
use local_ai_search.Agent.Stream.Index.{index_of}
use local_ai_search.Agent.Stream.{
  stream_filtered, find_open, find_close, partial_hold, first_of, clean_up,
}
use local_ai_search.Agent.Stream.Clean.{stream_filtered-Clean}
use local_ai_search.Agent.Stream.Plain.{stream_filtered-plain}
use local_ai_search.Agent.Pieces.{truncate_repetition}

-- A call that is cut between two tokens is left out, as is one that is not closed.
abbrev tokens : List Text
tokens = codes "so <tool" ∷ codes "_call>x</tool_call> ok" ∷ codes " <|tool_call>y" ∷ []

filtered : stream_filtered tokens ≡ some (codes "so " ∷ codes " ok" ∷ codes " " ∷ [])
unfolding stream_filtered find_open find_close partial_hold first_of clean_up index_of
filtered = refl

-- One `<` at the end of a token is not held back, so the tag behind it is not seen.
let_through :
    stream_filtered (codes "a<" ∷ codes "tool_call>x" ∷ [])
    ≡ some (codes "a<" ∷ codes "tool_call>x" ∷ [])
unfolding stream_filtered find_open find_close partial_hold first_of clean_up index_of
let_through = refl

stream_filtered-Clean_example :
    (outs : List Text) × (stream_filtered tokens ≡ some outs)
    × All
        (λ out.
          (index_of (codes "<tool_call>") out ≡ none)
          × (index_of (codes "<|tool_call>") out ≡ none))
        outs
stream_filtered-Clean_example = stream_filtered-Clean tokens

stream_filtered-plain_example :
    stream_filtered (codes "hi" ∷ [] ∷ codes "!" ∷ []) ≡ some (codes "hi" ∷ codes "!" ∷ [])
stream_filtered-plain_example =
    stream_filtered-plain (codes "hi" ∷ [] ∷ codes "!" ∷ [])
      ((omega arith, (omega arith, tt)), (tt, ((omega arith, tt), tt)))

-- A line of 25 characters, four times.
abbrev looped : Text
looped =
    codes "Hi "
    ++ (codes "one line of an answers - "
        ++ (codes "one line of an answers - "
            ++ (codes "one line of an answers - " ++ codes "one line of an answers - ")))

cut : truncate_repetition looped 20 2 ≡ codes "Hi one line of an answers"
unfolding truncate_repetition
cut = refl
