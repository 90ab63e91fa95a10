-- ===== src/Compaction/Tests.antt =====
-- Runs of `compact_messages` (backend/app/services/compaction.py), and its theorems at them.
use local_ai_search.Prelude.{
  ℕ, ◌≡◌, refl, Bool, true, false, ◌&&◌, ◌||◌, none, List, [], ◌∷◌, ◌++◌, Text, codes, leb, length,
  select,
}
use local_ai_search.Compaction.Summary.{Message, build_summary}
use local_ai_search.Compaction.{
  is_system, non_system, compactable, compact_messages, summary_message,
}
use local_ai_search.Compaction.Rounds.{compact_messages-accumulates}

abbrev is_digit : ℕ → Bool
is_digit c = leb b'0' c && leb c b'9'

abbrev is_word : ℕ → Bool
is_word c = is_digit c || leb b'a' c && leb c b'z' || leb b'A' c && leb c b'Z'

abbrev said : Text → Text → Message
said role content = record { role = role; content = content; compact_summary = false }

-- A summary of an earlier compaction, and six messages since.
abbrev talk : List Message
talk =
    summary_message (codes "earlier")
    ∷ said (codes "user") (codes "one")
    ∷ said (codes "assistant") (codes "two")
    ∷ said (codes "user") (codes "three")
    ∷ said (codes "assistant") (codes "four")
    ∷ said (codes "user") (codes "five")
    ∷ said (codes "assistant") (codes "six")
    ∷ []

-- Two system messages stand before the four that are kept.
compacted :
    (length (compact_messages is_digit is_word talk) ≡ 6)
    × (length (select is_system (compact_messages is_digit is_word talk)) ≡ 2)
unfolding compact_messages
compacted = (refl, refl)

said_only : false ≡ true → false ≡ true
said_only e = e

compact_messages-accumulates_example :
    select is_system (compact_messages is_digit is_word talk)
    ≡ select is_system talk
      ++ summary_message (build_summary is_digit is_word (compactable (non_system talk)) none) ∷ []
compact_messages-accumulates_example =
    compact_messages-accumulates is_digit is_word talk (
      (λ _. refl),
      (said_only, (said_only, (said_only, (said_only, (said_only, (said_only, tt)))))),
    )
