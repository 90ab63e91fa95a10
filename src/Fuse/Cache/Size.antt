-- ===== src/Fuse/Cache/Size.antt =====
-- `MetadataCache` (backend/app/fuse_server.py) stays within its size.
use local_ai_search.Prelude.{
  ℕ, ◌≤◌, ◌≡◌, refl, Option, none, some, List, [], ◌∷◌, arith, length, length-append, UniqueBy,
  Bool-cases, inl, inr,
}
use local_ai_search.Fuse.Cache.{
  FolderCache, MetadataCache, is_valid, lookup, without, to_end, use_entry, get, put, invalidate,
  clear,
}
use local_ai_search.Fuse.Cache.Laws.{
  key, to_end-Unique, evict-Unique, length-evict-le, length-without-le, length-without_present,
  without-Unique,
}

-- A call of the cache's methods.
pub data Call (E : Type 0) : Type 0 where
  looked : (now parent_inode : ℕ) → Call E
  stored : (parent_inode : ℕ) → FolderCache E → Call E
  dropped : (parent_inode : ℕ) → Call E
  cleared : Call E

module _ {E : Type 0} where
  pub record IsBounded (cache : MetadataCache E) : Type 0 where
    pub within : length cache.folders ≤ cache.max_folders
    pub unique : UniqueBy key cache.folders

  put-IsBounded :
      (k : ℕ) (fc : FolderCache E) (cache : MetadataCache E)
      → IsBounded cache
      → IsBounded (put k fc cache)
  unfolding put
  put-IsBounded k fc cache b = record {
    within = length-evict-le cache.max_folders (to_end k fc cache.folders);
    unique =
        evict-Unique cache.max_folders (to_end k fc cache.folders)
          (to_end-Unique k fc cache.folders b.unique);
  }

  invalidate-IsBounded :
      (k : ℕ) (cache : MetadataCache E) → IsBounded cache → IsBounded (invalidate k cache)
  unfolding invalidate
  invalidate-IsBounded k cache b = record {
    within = omega (arith, length-without-le k cache.folders, b.within);
    unique = without-Unique k cache.folders b.unique;
  }

  used-IsBounded :
      (now k : ℕ) (cache : MetadataCache E) (r : Option (FolderCache E))
      → lookup k cache.folders ≡ r
      → IsBounded cache
      → IsBounded (use_entry now k cache r).0
  used-IsBounded now k cache none e b = b
  used-IsBounded now k cache (some fc) e b = elim (Bool-cases (is_valid now fc)) [
    | inl t ↦ rw t (record {
      within = omega (
        arith,
        length-append (without k cache.folders) ((k, fc) ∷ []),
        length-without_present k cache.folders e,
        b.within,
      );
      unique = to_end-Unique k fc cache.folders b.unique;
    })
    | inr t ↦ rw t b
  ]

  pub after : Call E → MetadataCache E → MetadataCache E
  after (looked now k) cache = (get now k cache).0
  after (stored k fc) cache = put k fc cache
  after (dropped k) cache = invalidate k cache
  after cleared cache = clear cache

  pub after_all : List (Call E) → MetadataCache E → MetadataCache E
  unfolding after
  after_all [] cache = cache
  after_all (call ∷ calls) cache = after_all calls (after call cache)

  after-IsBounded :
      (call : Call E) (cache : MetadataCache E) → IsBounded cache → IsBounded (after call cache)
  unfolding after get clear
  after-IsBounded (looked now k) cache b =
      used-IsBounded now k cache (lookup k cache.folders) refl b
  after-IsBounded (stored k fc) cache b = put-IsBounded k fc cache b
  after-IsBounded (dropped k) cache b = invalidate-IsBounded k cache b
  after-IsBounded cleared cache b = record { within = omega arith; unique = tt }

  -- From a cache within its maximum and with one entry to a folder, any calls of its methods leave
  -- one that is within its maximum, with one entry to a folder.
  pub after_all-IsBounded :
      (calls : List (Call E)) (cache : MetadataCache E)
      → IsBounded cache
      → IsBounded (after_all calls cache)
  unfolding after_all
  after_all-IsBounded [] cache b = b
  after_all-IsBounded (call ∷ calls) cache b =
      after_all-IsBounded calls (after call cache) (after-IsBounded call cache b)
