-- ===== src/Filename/Tests.antt =====
-- `sanitize_filename` (backend/app/utils/filename.py) at concrete names.
use local_ai_search.Prelude.{◌<◌, ◌≡◌, refl, [], ◌∷◌, ◌++◌, Text, codes, length, All}
use local_ai_search.Filename.{IsSafeChar, sanitize_filename, sanitize_filename_safe}

abbrev nasty : Text
nasty = codes "../a/b" ++ 10 ∷ codes "c"

names :
    (sanitize_filename nasty ≡ codes "..-a-bc")
    × (sanitize_filename (0 ∷ 13 ∷ []) ≡ codes "unnamed")
unfolding sanitize_filename
names = (refl, refl)

sanitize_filename_safe_example :
    (0 < length (sanitize_filename nasty))
    × All IsSafeChar (sanitize_filename nasty)
    × (sanitize_filename (sanitize_filename nasty) ≡ sanitize_filename nasty)
sanitize_filename_safe_example = sanitize_filename_safe nasty
