-- ===== src/Agent/Stream/Clean.antt =====
-- What `_stream_filtered` of backend/app/services/ai_agent.py yields has no tool call in it.
use local_ai_search.Prelude.{
  ℕ, zero, suc, ◌+◌, ◌≤◌, ◌<◌, ◌≡◌, refl, sym, ◌∙◌, ap, Option, none, some, List, [], ◌∷◌, ◌++◌,
  Text, codes, arith, ltb, length, take, drop, take-append-drop, length-drop, lstrip, strip,
  is_space, All, All-append, Bool-cases, Option-cases, inl, inr,
}
use mathlib.Core.List.{reverse, reverse-append, reverse-reverse}
use mathlib.Core.Path.{subst}
use mathlib.Core.Option.{some-injective, some-ne-none}
use local_ai_search.Agent.Stream.Index.{index_of, index_of-take, index_of-left, index_of-right}
use local_ai_search.Agent.Stream.{
  open_tags, close_tags, any_tags, earlier, first_of, find_open, close_end, find_close, yield_some,
  yield_first, drain, cut_at, clean_up, then_yield, filter_tokens, stream_filtered,
}

-- A place that is at or before another, which may be none.
abbrev Before : Option ℕ → Option ℕ → Type 0
Before first o = (q : ℕ) → o ≡ some q → (p : ℕ) × (first ≡ some p) × (p ≤ q)

Before-trans : (a b c : Option ℕ) → Before a b → Before b c → Before a c
Before-trans a b c f g q e =
    let (p, e', le) = g q e in let (p', e'', le') = f p e' in (p', e'', omega arith)

earlier_both :
    (pos idx : ℕ)
    → Before (earlier (some pos) (some idx)) (some pos)
      × Before (earlier (some pos) (some idx)) (some idx)
earlier_both pos idx = elim (Bool-cases (ltb idx pos)) [
  | inl t ↦ rw t (
    λ q e. let k = some-injective pos q e in (idx, refl, ground arith),
    λ q e. let k = some-injective idx q e in (idx, refl, ground arith),
  )
  | inr t ↦ rw t (
    λ q e. let k = some-injective pos q e in (pos, refl, ground arith),
    λ q e. let k = some-injective idx q e in (pos, refl, ground arith),
  )
]

earlier-Before : (pos idx : Option ℕ) → Before (earlier pos idx) pos × Before (earlier pos idx) idx
earlier-Before none none = (λ q e. cc, λ q e. cc)
earlier-Before (some pos) none = (λ q e. (q, e, omega arith), λ q e. cc)
earlier-Before none (some idx) = (λ q e. cc, λ q e. (q, e, omega arith))
earlier-Before (some pos) (some idx) = earlier_both pos idx

first_of-Before :
    (tags : List Text) (pos : Option ℕ) (s : Text)
    → Before (first_of tags pos s) pos
      × All (λ tag. Before (first_of tags pos s) (index_of tag s)) tags
unfolding first_of
first_of-Before [] pos s = (λ q e. (q, e, omega arith), tt)
first_of-Before (tag ∷ tags) pos s =
    let (to_pos, to_idx) = earlier-Before pos (index_of tag s) in
    let (first, rest) = first_of-Before tags (earlier pos (index_of tag s)) s in
    (Before-trans _ _ pos first to_pos, (Before-trans _ _ (index_of tag s) first to_idx, rest))

-- The text up to the first place of some tags has none of them.
cut_at-none :
    (tag s : Text) (first : Option ℕ)
    → 0 < length tag
    → Before first (index_of tag s)
    → index_of tag (cut_at first s) ≡ none
cut_at-none [] s first p h = absurd (omega arith)
cut_at-none (d ∷ tag) s none p h = elim (Option-cases (index_of (d ∷ tag) s)) [
  | inl e ↦ e
  | inr (q, e) ↦ let (r, e', le) = h q e in absurd (some-ne-none r (sym e'))
]
cut_at-none (d ∷ tag) s (some first) p h =
    index_of-take d tag s first
      (λ q e. let (r, e', le) = h q e in let k = some-injective first r e' in omega arith)

-- A text without the tags that open a tool call.
abbrev pub Clean : Text → Type 0
Clean s = (index_of (codes "<tool_call>") s ≡ none) × (index_of (codes "<|tool_call>") s ≡ none)

Clean-find_open : (s : Text) → Clean (cut_at (find_open s) s)
unfolding find_open
Clean-find_open s =
    let (_, (one, (two, _))) = first_of-Before open_tags none s in
    (cut_at-none _ s _ (omega arith) one, cut_at-none _ s _ (omega arith) two)

Clean-any_tags : (s : Text) → Clean (cut_at (first_of any_tags none s) s)
Clean-any_tags s =
    let (_, (one, (two, _))) = first_of-Before any_tags none s in
    (cut_at-none _ s _ (omega arith) one, cut_at-none _ s _ (omega arith) two)

Clean-left : (s more : Text) → Clean (s ++ more) → Clean s
Clean-left s more h = (index_of-left _ _ s more h.0, index_of-left _ _ s more h.1)

Clean-right : (before s : Text) → Clean (before ++ s) → Clean s
Clean-right before s h = (index_of-right _ _ before s h.0, index_of-right _ _ before s h.1)

Clean-take : (n : ℕ) (s : Text) → Clean s → Clean (take n s)
Clean-take n s h = Clean-left (take n s) (drop n s) (rw (take-append-drop n s) h)

lstrip-suffix : (s : Text) → (spaces : Text) × (spaces ++ lstrip s ≡ s)
unfolding lstrip
lstrip-suffix [] = ([], refl)
lstrip-suffix (c ∷ s) = elim (Bool-cases (is_space c)) [
  | inl t ↦ let (spaces, e) = lstrip-suffix s in (c ∷ spaces, rw (t, e))
  | inr t ↦ ([], rw t)
]

Clean-strip : (s : Text) → Clean s → Clean (strip s)
unfolding strip
Clean-strip s h =
    let (before, e) = lstrip-suffix s in
    let (after, e') = lstrip-suffix (reverse (lstrip s)) in
    let whole : reverse (lstrip (reverse (lstrip s))) ++ reverse after ≡ lstrip s =
      sym (reverse-append after (lstrip (reverse (lstrip s))))
      ∙ (ap reverse e' ∙ reverse-reverse (lstrip s)) in
    Clean-left _ (reverse after) (rw whole (Clean-right before (lstrip s) (rw e h)))

-- A close tag ends behind the start of the search, where the text has not ended.
close_end-positive :
    (tags : List Text) (s : Text) (start e : ℕ)
    → All (λ tag. 0 < length tag) tags
    → close_end tags s start ≡ some e
    → 0 < e
unfolding close_end
close_end-positive [] s start e p h = cc
close_end-positive (tag ∷ tags) s start e p h = elim (Option-cases (index_of tag (drop start s))) [
  | inl n ↦ close_end-positive tags s start e p.1 (rw n at h)
  | inr (idx, n) ↦
      let k = some-injective (start + idx + length tag) e (rw n at h) in let q = p.0 in omega arith
]

find_close-positive : (s : Text) (start e : ℕ) → find_close s start ≡ some e → 0 < e
unfolding find_close
find_close-positive s start e =
    close_end-positive close_tags s start e (omega arith, (omega arith, tt))

find_open-some : (s : Text) {p : ℕ} → find_open s ≡ some p → 0 < length s
unfolding find_open first_of index_of
find_open-some [] e = cc
find_open-some (c ∷ s) e = omega arith

yield_some-All :
    (s : Text) (outs : List Text) → Clean s → All Clean outs → All Clean (yield_some s outs)
yield_some-All [] outs h k = k
yield_some-All (c ∷ s) outs h k = (h, k)

-- A loop that ends, and yields texts without tags.
abbrev Drained : Option (List Text × Text) → Type 0
Drained result = (outs : List Text) × (rest : Text) × (result ≡ some (outs, rest)) × All Clean outs

yield_first-Drained :
    (s : Text) (result : Option (List Text × Text))
    → Clean s
    → Drained result
    → Drained (yield_first s result)
yield_first-Drained s none h (outs, rest, e, k) = cc
yield_first-Drained s (some (outs, rest)) h (outs', rest', e, k) =
    let same = some-injective (outs, rest) (outs', rest') e in
    (
      yield_some s outs,
      rest,
      refl,
      yield_some-All s outs h (subst (All Clean) (sym (ap (λ r. r.0) same)) k),
    )

Clean-before : (s : Text) (first : Option ℕ) → find_open s ≡ first → Clean (cut_at first s)
Clean-before s first e = subst (λ r. Clean (cut_at r s)) e (Clean-find_open s)

drain-Drained : (fuel : ℕ) (buffer : Text) → length buffer < fuel → Drained (drain fuel buffer)
unfolding drain
drain-Drained zero buffer p = absurd (omega arith)
drain-Drained (suc fuel) buffer p = elim (Option-cases (find_open buffer)) [
  | inl o ↦
      rw (drain, o)
        (_, _, refl, yield_some-All _ [] (Clean-take _ buffer (Clean-before buffer none o)) tt)
  | inr (start, o) ↦ elim (Option-cases (find_close buffer start)) [
    | inl c ↦
        rw (drain, o, c)
          (yield_first-Drained (take start buffer) _ (Clean-before buffer (some start) o)
            ([], drop start buffer, refl, tt))
    | inr (end, c) ↦
        let shorter : length (drop end buffer) < fuel = omega (
          arith,
          length-drop end buffer,
          find_close-positive buffer start end c,
          find_open-some buffer o,
        ) in
        rw (drain, o, c)
          (yield_first-Drained (take start buffer) _ (Clean-before buffer (some start) o)
            (drain-Drained fuel (drop end buffer) shorter))
  ]
]

Clean-clean_up : (s : Text) → Clean (clean_up s)
unfolding clean_up
Clean-clean_up s = Clean-strip _ (Clean-any_tags s)

Filtered : Option (List Text) → Type 0
Filtered result = (outs : List Text) × (result ≡ some outs) × All Clean outs

then_yield-Filtered :
    (outs : List Text) (result : Option (List Text))
    → All Clean outs
    → Filtered result
    → Filtered (then_yield outs result)
unfolding Filtered
then_yield-Filtered outs none h (more, e, k) = cc
then_yield-Filtered outs (some more) h (more', e, k) = (
  outs ++ more,
  refl,
  All-append Clean outs more h (subst (All Clean) (sym (some-injective more more' e)) k),
)

filter_tokens-Filtered :
    (tokens : List Text) (buffer : Text) → Filtered (filter_tokens tokens buffer)
unfolding filter_tokens Filtered
filter_tokens-Filtered [] buffer =
    (_, refl, yield_some-All (clean_up buffer) [] (Clean-clean_up buffer) tt)
filter_tokens-Filtered (token ∷ tokens) buffer =
    let (outs, rest, e, h) =
      drain-Drained (suc (length (buffer ++ token))) (buffer ++ token) (omega arith) in
    rw (filter_tokens, e)
      (then_yield-Filtered outs (filter_tokens tokens rest) h (filter_tokens-Filtered tokens rest))

-- However the model cuts its answer into tokens, the filter comes to an end, and no text that it yields
-- has one of the tags `<tool_call>` and `<|tool_call>` in it.
pub stream_filtered-Clean :
    (tokens : List Text)
    → (outs : List Text) × (stream_filtered tokens ≡ some outs)
      × All
          (λ out.
            (index_of (codes "<tool_call>") out ≡ none)
            × (index_of (codes "<|tool_call>") out ≡ none))
          outs
unfolding stream_filtered Filtered
stream_filtered-Clean tokens = filter_tokens-Filtered tokens []
