-- ===== src/Compaction/Rounds.antt =====
-- `compact_messages` and `should_compact` of backend/app/services/compaction.py, one after the other.
use local_ai_search.Prelude.{
  ℕ, ◌-◌, ◌*◌, ◌≤◌, ◌≡◌, refl, ◌∙◌, ap, Bool, true, false, not, none, List, [], ◌∷◌, ◌++◌, arith,
  length, drop, take_last, length-drop, select, select-append, select_of_All, select-nil_iff, All,
  All-map, All-drop, All-take, All-select_test, Bool-cases, inl, inr,
}
use local_ai_search.Compaction.Summary.{Message, build_summary}
use local_ai_search.Compaction.{
  preserve_recent_pairs, is_system, non_system, compactable, split_summary, should_compact,
  compact_messages, summary_message,
}

not_system : (messages : List Message) → All (λ m. not (is_system m) ≡ true) (non_system messages)
not_system messages = All-select_test _ (λ m. not (is_system m)) messages (λ m h. h)

-- The system messages hold no other.
non_system-system : (messages : List Message) → non_system (select is_system messages) ≡ []
non_system-system messages =
    (select-nil_iff (λ m. not (is_system m)) (select is_system messages)).1
      (All-select_test (λ m. not (is_system m) ≡ false) is_system messages (λ m h. ap not h))

system-non_system :
    (n : ℕ) (messages : List Message) → select is_system (drop n (non_system messages)) ≡ []
system-non_system n messages = (select-nil_iff is_system (drop n (non_system messages))).1 (
    All-drop (λ m. is_system m ≡ false) n (non_system messages)
      (All-map _ _ (non_system messages) (λ m h. ground arith) (not_system messages)))

should_compact_few :
    (messages : List Message)
    → length (non_system messages) ≤ preserve_recent_pairs * 2
    → should_compact messages ≡ false
unfolding should_compact
should_compact_few messages h = ground arith

split_unmarked :
    (messages : List Message)
    → All (λ m. m.compact_summary ≡ false) messages
    → split_summary messages ≡ (none, messages)
split_unmarked [] h = refl
split_unmarked (m ∷ messages) h = rw h.0

unmarked_non_system :
    (messages : List Message)
    → All (λ m. m.compact_summary ≡ true → is_system m ≡ true) messages
    → All (λ m. m.compact_summary ≡ false) (non_system messages)
unmarked_non_system [] h = tt
unmarked_non_system (m ∷ messages) h = elim (Bool-cases (is_system m)) [
  | inl e ↦ rw e (unmarked_non_system messages h.1)
  | inr e ↦ rw e (ground (arith, h.0), unmarked_non_system messages h.1)
]

unmarked :
    (messages : List Message)
    → All (λ m. m.compact_summary ≡ true → is_system m ≡ true) messages
    → All (λ m. m.compact_summary ≡ false) (compactable (non_system messages))
unmarked messages h = All-take _ _ (non_system messages) (unmarked_non_system messages h)

module _ (is_digit is_word : ℕ → Bool) where
  non_system-compact :
      (messages : List Message)
      → non_system (compact_messages is_digit is_word messages)
        ≡ take_last (preserve_recent_pairs * 2) (non_system messages)
  unfolding compact_messages
  non_system-compact messages =
      select-append (λ m. not (is_system m)) (select is_system messages) _
      ∙ (rw (non_system-system messages) (
          select_of_All (λ m. not (is_system m)) _
            (All-drop (λ m. not (is_system m) ≡ true) _ (non_system messages)
              (not_system messages))))

  -- A compaction keeps, in their order, the last four messages that are not the system's, or all
  -- of them if there are fewer, and no other such message; so no second compaction is due at once.
  pub compact_messages-recent :
      (messages : List Message)
      → (non_system (compact_messages is_digit is_word messages)
          ≡ take_last (preserve_recent_pairs * 2) (non_system messages))
        × (should_compact (compact_messages is_digit is_word messages) ≡ false)
  unfolding should_compact
  compact_messages-recent messages = (
    non_system-compact messages,
    should_compact_few (compact_messages is_digit is_word messages) (
        omega (
          arith,
          ap (λ (xs : List Message). length xs) (non_system-compact messages),
          length-drop (length (non_system messages) - 4) (non_system messages),
        )),
  )

  -- Where only system messages have the marker of a summary, the summary of an earlier compaction
  -- is not merged into the new one: it stays among the system messages, which are all kept, and the
  -- new summary is made as if there were none.
  pub compact_messages-accumulates :
      (messages : List Message)
      → All (λ m. m.compact_summary ≡ true → is_system m ≡ true) messages
      → select is_system (compact_messages is_digit is_word messages)
        ≡ select is_system messages
          ++ summary_message
              (build_summary is_digit is_word (compactable (non_system messages)) none)
            ∷ []
  unfolding compact_messages
  compact_messages-accumulates messages marked = rw (
    split_unmarked _ (unmarked messages marked),
    select-append,
    select_of_All is_system (select is_system messages)
        (All-select_test _ is_system messages (λ m h. h)),
    system-non_system,
  )
