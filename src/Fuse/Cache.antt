-- ===== src/Fuse/Cache.antt =====
-- `FolderCache` and `MetadataCache` of backend/app/fuse_server.py. The clock counts microseconds.
pub mod Laws
pub mod Size
mod Tests
use local_ai_search.Prelude.{
  ℕ, ◌-◌, ◌*◌, Bool, true, false, not, Option, none, some, List, [], ◌∷◌, ◌++◌, ltb, ◌==◌,
  if◌then◌else◌, length, select, find?,
}

abbrev pub max_cached_folders : ℕ
max_cached_folders = 100

-- 5.0 seconds
abbrev pub cache_ttl : ℕ
cache_ttl = 5_000_000

-- The entries are whatever the server lists of a folder.
pub record FolderCache (E : Type 0) : Type 0 where
  pub entries : E
  pub timestamp : ℕ

unfoldable pub is_valid : {E : Type 0} (now : ℕ) → FolderCache E → Bool
is_valid now fc = ltb (now - fc.timestamp) cache_ttl

-- The `OrderedDict`, the entry to be evicted first in front.
pub record MetadataCache (E : Type 0) : Type 0 where
  pub folders : List (ℕ × FolderCache E)
  pub max_folders : ℕ

module _ {E : Type 0} where
  unfoldable pub lookup : ℕ → List (ℕ × FolderCache E) → Option (FolderCache E)
  lookup k [] = none
  lookup k ((j, fc) ∷ folders) = if j == k then some fc else lookup k folders

  -- `self._folders.pop(k, None)`
  unfoldable pub without : ℕ → List (ℕ × FolderCache E) → List (ℕ × FolderCache E)
  without k [] = []
  without k ((j, fc) ∷ folders) =
      let rest = without k folders in if j == k then rest else (j, fc) ∷ rest

  -- `self._folders[k] = fc; self._folders.move_to_end(k)`
  abbrev pub to_end : ℕ → FolderCache E → List (ℕ × FolderCache E) → List (ℕ × FolderCache E)
  to_end k fc folders = without k folders ++ (k, fc) ∷ []

  -- `while len(self._folders) > self._max: self._folders.popitem(last=False)`
  unfoldable pub evict : ℕ → List (ℕ × FolderCache E) → List (ℕ × FolderCache E)
  evict max_folders [] = []
  evict max_folders (e ∷ folders) =
      if ltb max_folders (length (e ∷ folders)) then evict max_folders folders else e ∷ folders

  -- The cache after the call, and what it returns.
  abbrev pub use_entry :
      (now parent_inode : ℕ)
      → MetadataCache E
      → Option (FolderCache E)
      → MetadataCache E × Option (FolderCache E)
  use_entry now parent_inode cache none = (cache, none)
  use_entry now parent_inode cache (some fc) =
      if is_valid now fc
      then (record cache { folders = to_end parent_inode fc cache.folders }, some fc)
      else (cache, none)

  unfoldable pub get :
      (now parent_inode : ℕ) → MetadataCache E → MetadataCache E × Option (FolderCache E)
  get now parent_inode cache = use_entry now parent_inode cache (lookup parent_inode cache.folders)

  unfoldable pub put : (parent_inode : ℕ) → FolderCache E → MetadataCache E → MetadataCache E
  unfolding evict
  put parent_inode fc cache = record cache {
    folders = evict cache.max_folders (to_end parent_inode fc cache.folders);
  }

  unfoldable pub invalidate : (parent_inode : ℕ) → MetadataCache E → MetadataCache E
  invalidate parent_inode cache = record cache { folders = without parent_inode cache.folders }

  unfoldable pub clear : MetadataCache E → MetadataCache E
  clear cache = record cache { folders = [] }
