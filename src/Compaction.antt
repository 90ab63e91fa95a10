-- ===== src/Compaction.antt =====
-- backend/app/services/compaction.py: old messages of a conversation are replaced by a summary.
pub mod Summary
pub mod Rounds
mod Tests
use local_ai_search.Prelude.{
  ℕ, ◌+◌, ◌-◌, ◌*◌, ◌/◌, Bool, true, false, not, Option, none, some, List, [], ◌∷◌, ◌++◌, Text,
  codes, text_eq, ltb, leb, if◌then◌else◌, length, take, drop, take_last, select,
}
use local_ai_search.Compaction.Summary.{Message, build_summary}

abbrev pub preserve_recent_pairs : ℕ
preserve_recent_pairs = 2

abbrev pub max_estimated_tokens : ℕ
max_estimated_tokens = 8000

abbrev pub char_per_token : ℕ
char_per_token = 2

pub total_chars : List Message → ℕ
total_chars [] = 0
total_chars (m ∷ messages) = length m.content + total_chars messages

unfoldable pub estimate_tokens : List Message → ℕ
unfolding total_chars
estimate_tokens messages = total_chars messages / char_per_token

abbrev pub is_system : Message → Bool
is_system m = text_eq m.role (codes "system")

abbrev pub non_system : List Message → List Message
non_system = select (λ m. not (is_system m))

-- `xs[:-4]`
abbrev pub compactable : List Message → List Message
compactable xs = take (length xs - preserve_recent_pairs * 2) xs

unfoldable pub should_compact : List Message → Bool
should_compact messages =
    if leb (length (non_system messages)) (preserve_recent_pairs * 2)
    then false
    else ltb max_estimated_tokens (estimate_tokens (compactable (non_system messages)))

-- The marker of a summary on the first old message: its content, and the messages behind it.
abbrev pub split_summary : List Message → Option Text × List Message
split_summary [] = (none, [])
split_summary (m ∷ messages) =
    if m.compact_summary then (some m.content, messages) else (none, m ∷ messages)

abbrev pub summary_message : Text → Message
summary_message summary = record {
  role = codes "system";
  content = summary;
  compact_summary = true;
}

module _ (is_digit is_word : ℕ → Bool) where
  unfoldable pub compact_messages : List Message → List Message
  compact_messages messages =
      let (existing_summary, to_compact) = split_summary (compactable (non_system messages)) in
      select is_system messages
      ++ summary_message (build_summary is_digit is_word to_compact existing_summary)
        ∷ take_last (preserve_recent_pairs * 2) (non_system messages)
