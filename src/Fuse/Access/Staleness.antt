-- ===== src/Fuse/Access/Staleness.antt =====
-- The cache of what is known of a caller (backend/app/fuse_server.py, `_get_user_info_sync`), over
-- a database that changes in time.
use local_ai_search.Prelude.{
  ℕ, ◌+◌, ◌-◌, ◌≤◌, ◌<◌, ◌≡◌, refl, Bool, Bool-cases, Option, none, some, List, inl, inr, arith,
  ltb, ◌==◌,
}
use local_ai_search.Models.{Db}
use local_ai_search.Fuse.Access.{
  UserInfoCache, load_user_info, get_user_info, user_info_ttl, stored, fresh_info,
}

-- An entry is what the database said at its time.
abbrev pub Known : (history : ℕ → Db) (now uid : ℕ) → Option ((Bool × List ℕ) × ℕ) → Type 0
Known history now uid none = Unit
Known history now uid (some (info, at)) = (info ≡ load_user_info uid (history at)) × (at ≤ now)

abbrev pub IsRecord : (history : ℕ → Db) (now : ℕ) → UserInfoCache → Type 0
IsRecord history now cache = (uid : ℕ) → Known history now uid (cache uid)

Known-later :
    (history : ℕ → Db) (before now uid : ℕ) (entry : Option ((Bool × List ℕ) × ℕ))
    → before ≤ now
    → Known history before uid entry
    → Known history now uid entry
Known-later history before now uid none le h = tt
Known-later history before now uid (some (info, at)) le h = (h.0, omega arith)

-- A request's answer, and the cache after it.
abbrev pub IsFresh : (history : ℕ → Db) (now uid : ℕ) → (Bool × List ℕ) × UserInfoCache → Type 0
IsFresh history now uid (info, cache) =
    ((at : ℕ) × (info ≡ load_user_info uid (history at)) × (at ≤ now) × (now < at + user_info_ttl))
    × IsRecord history now cache

stored-IsRecord :
    (history : ℕ → Db) (now uid : ℕ) (cache : UserInfoCache)
    → IsRecord history now cache
    → IsRecord history now (stored now uid (load_user_info uid (history now)) cache)
stored-IsRecord history now uid cache h k = elim (Bool-cases (k == uid)) [
  | inl e ↦ let same : k ≡ uid = ground arith in rw (e, same) (refl, omega arith)
  | inr e ↦ rw e (h k)
]

fresh_info-IsFresh :
    (history : ℕ → Db) (now uid : ℕ) (entry : Option ((Bool × List ℕ) × ℕ)) (cache : UserInfoCache)
    → Known history now uid entry
    → IsRecord history now cache
    → IsFresh history now uid (fresh_info now uid entry (history now) cache)
fresh_info-IsFresh history now uid none cache known h =
    ((now, refl, omega arith, omega arith), stored-IsRecord history now uid cache h)
fresh_info-IsFresh history now uid (some (info, at)) cache known h =
    elim (Bool-cases (ltb (now - at) user_info_ttl)) [
      | inl e ↦ rw e ((at, known.0, known.1, ground arith), h)
      | inr e ↦
          rw e ((now, refl, omega arith, omega arith), stored-IsRecord history now uid cache h)
    ]

-- `history` is the database at each time. If every entry of the cache is what the database said at
-- the entry's time, then the answer is what the database said at most 30 seconds before the
-- request, and every entry of the new cache is again what the database said at its time.
pub get_user_info-IsFresh :
    (history : ℕ → Db) (before now uid : ℕ) (cache : UserInfoCache)
    → IsRecord history before cache
    → before ≤ now
    → IsFresh history now uid (get_user_info now uid (history now) cache)
unfolding get_user_info
get_user_info-IsFresh history before now uid cache h le =
    let known : IsRecord history now cache =
      λ k. Known-later history before now k (cache k) le (h k) in
    fresh_info-IsFresh history now uid (cache uid) cache (known uid) known
