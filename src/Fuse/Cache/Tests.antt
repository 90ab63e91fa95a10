-- ===== src/Fuse/Cache/Tests.antt =====
-- `MetadataCache` (backend/app/fuse_server.py) with room for two folders.
use local_ai_search.Prelude.{ℕ, ◌≡◌, refl, true, false, none, [], ◌∷◌, arith}
use local_ai_search.Fuse.Cache.{FolderCache, MetadataCache, is_valid, lookup}
use local_ai_search.Fuse.Cache.Size.{
  looked, stored, dropped, IsBounded, after_all, after_all-IsBounded,
}

abbrev listing : ℕ → FolderCache ℕ
listing t = record { entries = t; timestamp = t }

abbrev full : MetadataCache ℕ
full = record { folders = (4, listing 10) ∷ (5, listing 20) ∷ []; max_folders = 2 }

-- An entry of five seconds is not valid any more.
ages : (is_valid 5_000_009 (listing 10) ≡ true) × (is_valid 5_000_010 (listing 10) ≡ false)
unfolding is_valid
ages = (refl, refl)

absent : lookup 6 full.folders ≡ none
unfolding lookup
absent = refl

full-IsBounded : IsBounded full
full-IsBounded = record { within = omega arith; unique = (((λ e. omega arith), tt), (tt, tt)) }

after_all-IsBounded_example :
    IsBounded (after_all (stored 6 (listing 30) ∷ looked 31 5 ∷ dropped 4 ∷ []) full)
after_all-IsBounded_example =
    after_all-IsBounded (stored 6 (listing 30) ∷ looked 31 5 ∷ dropped 4 ∷ []) full full-IsBounded
