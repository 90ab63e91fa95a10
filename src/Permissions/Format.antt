-- ===== src/Permissions/Format.antt =====
-- `format_permission_string` of backend/app/services/permissions.py can be read back.
use local_ai_search.Prelude.{◌≡◌, Bool, Option, none, some, [], ◌∷◌, Text, arith, ◌==◌}
use local_ai_search.Permissions.{format_permission_string}

-- The four bits that a permission string shows.
abbrev pub read_permission_string : Text → Option (Bool × Bool × Bool × Bool)
read_permission_string (o ∷ p ∷ gr ∷ gw ∷ or ∷ ow ∷ []) =
    some (gr == b'r', gw == b'w', or == b'r', ow == b'w')
read_permission_string _ = none

-- No two settings of the four bits are printed alike: the string determines them.
pub format_permission_string-injective :
    (gr gw or ow : Bool)
    → read_permission_string (format_permission_string gr gw or ow) ≡ some (gr, gw, or, ow)
unfolding format_permission_string
format_permission_string-injective gr gw or ow = ground arith
