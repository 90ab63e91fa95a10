-- ===== src/Filename.antt =====
-- backend/app/utils/filename.py: file names without separators and control characters.
mod Tests
use local_ai_search.Prelude.{
  ℕ, ◌<◌, ◌-◌, ◌≡◌, ◌&&◌, ◌||◌, Bool, Option, none, some, List, ltb, text_eq, split, rfind, drop,
  ◌≢◌, refl, ap, not, [], ◌∷◌, Text, codes, arith, ◌==◌, if◌then◌else◌, length, select, All,
  Bool-cases, inl, inr,
}

-- `name.replace(old, new)` at one character
pub replace : (old new : ℕ) → Text → Text
replace old new [] = []
replace old new (c ∷ s) = (if c == old then new else c) ∷ replace old new s

-- `name.replace(c, "")`
abbrev pub remove : ℕ → Text → Text
remove c = select (λ d. not (d == c))

abbrev pub or_unnamed : Text → Text
or_unnamed [] = codes "unnamed"
or_unnamed (c ∷ s) = c ∷ s

unfoldable pub sanitize_filename : Text → Text
unfolding replace
sanitize_filename name = or_unnamed (remove 10 (remove 13 (remove 0 (replace b'/' b'-' name))))

-- Not a slash, and none of NUL, CR and LF.
abbrev pub IsSafeChar : ℕ → Type 0
IsSafeChar c = (c ≢ b'/') × (c ≢ 0) × (c ≢ 13) × (c ≢ 10)

replace_slash : (name : Text) → All (λ c. c ≢ b'/') (replace b'/' b'-' name)
unfolding replace
replace_slash [] = tt
replace_slash (c ∷ name) = (ground arith, replace_slash name)

remove-All : (P : ℕ → Type 0) (c : ℕ) (s : Text) → All P s → All (λ d. P d × (d ≢ c)) (remove c s)
remove-All P c [] h = tt
remove-All P c (d ∷ s) h = elim (Bool-cases (not (d == c))) [
  | inl e ↦ rw e ((h.0, ground arith), remove-All P c s h.1)
  | inr e ↦ rw e (remove-All P c s h.1)
]

All-regroup :
    (s : Text) → All (λ c. (((c ≢ b'/') × (c ≢ 0)) × (c ≢ 13)) × (c ≢ 10)) s → All IsSafeChar s
All-regroup [] h = tt
All-regroup (c ∷ s) h = ((h.0.0.0.0, h.0.0.0.1, h.0.0.1, h.0.1), All-regroup s h.1)

or_unnamed-safe :
    (s : Text) → All IsSafeChar s → (0 < length (or_unnamed s)) × All IsSafeChar (or_unnamed s)
or_unnamed-safe [] h = (omega arith, omega arith)
or_unnamed-safe (c ∷ s) h = (omega arith, h)

replace_safe : (s : Text) → All IsSafeChar s → replace b'/' b'-' s ≡ s
unfolding replace
replace_safe [] h = refl
replace_safe (c ∷ s) h = ground (arith, replace_safe s h.1)

remove_safe : (c : ℕ) (s : Text) → All (λ d. d ≢ c) s → remove c s ≡ s
remove_safe c [] h = refl
remove_safe c (d ∷ s) h = ground (arith, remove_safe c s h.1)

All-part : (P Q : ℕ → Type 0) (s : Text) → ((c : ℕ) → P c → Q c) → All P s → All Q s
All-part P Q [] f h = tt
All-part P Q (c ∷ s) f h = (f c h.0, All-part P Q s f h.1)

cleaned : (s : Text) → All IsSafeChar s → remove 10 (remove 13 (remove 0 (replace b'/' b'-' s))) ≡ s
cleaned s h = rw (
  replace_safe s h,
  remove_safe 0 s (All-part _ _ s (λ d p. p.1) h),
  remove_safe 13 s (All-part _ _ s (λ d p. p.2) h),
  remove_safe 10 s (All-part _ _ s (λ d p. p.3) h),
)

sanitize_safe : (c : ℕ) (s : Text) → All IsSafeChar (c ∷ s) → sanitize_filename (c ∷ s) ≡ c ∷ s
unfolding sanitize_filename
sanitize_safe c s h = ap or_unnamed (cleaned (c ∷ s) h)

sanitize_fixed : (s : Text) → 0 < length s → All IsSafeChar s → sanitize_filename s ≡ s
sanitize_fixed [] p h = absurd (omega arith)
sanitize_fixed (c ∷ s) p h = sanitize_safe c s h

sanitize-IsSafe :
    (name : Text) → (0 < length (sanitize_filename name)) × All IsSafeChar (sanitize_filename name)
unfolding sanitize_filename
sanitize-IsSafe name =
    or_unnamed-safe _ (
      All-regroup _ (remove-All _ 10 _ (remove-All _ 13 _ (remove-All _ 0 _ (replace_slash name)))))

-- A sanitized name is not empty and has no slash, NUL, CR or LF, and to sanitize it once more changes
-- nothing.
pub sanitize_filename_safe :
    (name : Text)
    → (0 < length (sanitize_filename name))
      × All IsSafeChar (sanitize_filename name)
      × (sanitize_filename (sanitize_filename name) ≡ sanitize_filename name)
sanitize_filename_safe name =
    let (some_char, safe) = sanitize-IsSafe name in
    (some_char, safe, sanitize_fixed (sanitize_filename name) some_char safe)

-- `Path(filename).name`: the last part of the path that is not empty and not "."
last_or_empty : List Text → Text
last_or_empty [] = []
last_or_empty (part ∷ []) = part
last_or_empty (part ∷ next ∷ parts) = last_or_empty (next ∷ parts)

abbrev path_name : Text → Text
path_name filename =
    last_or_empty
      (select (λ part. not (text_eq part [] || text_eq part (codes "."))) (split b'/' filename))

abbrev suffix_at : Text → Option ℕ → Text
suffix_at name none = []
suffix_at name (some i) = if ltb 0 i && ltb i (length name - 1) then drop i name else []

-- `Path(filename).suffix`
unfoldable pub path_suffix : Text → Text
unfolding last_or_empty rfind split
path_suffix filename =
    let name = path_name filename in suffix_at name (rfind name (codes ".") 0 (length name))
