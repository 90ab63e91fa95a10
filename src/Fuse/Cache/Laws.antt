-- ===== src/Fuse/Cache/Laws.antt =====
-- The contents and the eviction order of `MetadataCache` (backend/app/fuse_server.py).
use local_ai_search.Prelude.{
  ℕ, ◌+◌, ◌≤◌, ◌<◌, ◌≡◌, ◌≢◌, refl, false, none, some, List, [], ◌∷◌, ◌++◌, arith, ltb, ◌==◌,
  if◌then◌else◌, length, length-append, All, UniqueBy, UniqueBy-append, Bool-cases, inl, inr,
}
use local_ai_search.Fuse.Cache.{
  FolderCache, MetadataCache, is_valid, lookup, without, to_end, evict, get, put,
}

module _ {E : Type 0} where
  abbrev pub key : ℕ × FolderCache E → ℕ
  key e = e.0

  lookup-without_self : (k : ℕ) (l : List (ℕ × FolderCache E)) → lookup k (without k l) ≡ none
  unfolding lookup without
  lookup-without_self k [] = refl
  lookup-without_self k ((j, fc) ∷ l) = ground (arith, lookup-without_self k l)

  lookup-without_ne :
      (k q : ℕ) (l : List (ℕ × FolderCache E)) → q ≢ k → lookup q (without k l) ≡ lookup q l
  unfolding lookup without
  lookup-without_ne k q [] h = refl
  lookup-without_ne k q ((j, fc) ∷ l) h = ground (arith, lookup-without_ne k q l h)

  without-All :
      (P : ℕ × FolderCache E → Type 0) (k : ℕ) (l : List (ℕ × FolderCache E))
      → All P l
      → All P (without k l)
  unfolding without
  without-All P k [] h = tt
  without-All P k ((j, fc) ∷ l) h = elim (Bool-cases (j == k)) [
    | inl e ↦ rw e (without-All P k l h.1)
    | inr e ↦ rw e (h.0, without-All P k l h.1)
  ]

  without_absent : (k : ℕ) (l : List (ℕ × FolderCache E)) → All (λ e. key e ≢ k) (without k l)
  unfolding without
  without_absent k [] = tt
  without_absent k ((j, fc) ∷ l) = elim (Bool-cases (j == k)) [
    | inl e ↦ rw e (without_absent k l)
    | inr e ↦ rw e ((λ same. ground arith), without_absent k l)
  ]

  pub without-Unique :
      (k : ℕ) (l : List (ℕ × FolderCache E)) → UniqueBy key l → UniqueBy key (without k l)
  unfolding without
  without-Unique k [] u = tt
  without-Unique k ((j, fc) ∷ l) u = elim (Bool-cases (j == k)) [
    | inl e ↦ rw e (without-Unique k l u.1)
    | inr e ↦ rw e (without-All _ k l u.0, without-Unique k l u.1)
  ]

  pub to_end-Unique :
      (k : ℕ) (fc : FolderCache E) (l : List (ℕ × FolderCache E))
      → UniqueBy key l
      → UniqueBy key (to_end k fc l)
  to_end-Unique k fc l u =
      UniqueBy-append key (without k l) (k, fc) (without-Unique k l u) (without_absent k l)

  pub evict-Unique :
      (n : ℕ) (l : List (ℕ × FolderCache E)) → UniqueBy key l → UniqueBy key (evict n l)
  unfolding evict
  evict-Unique n [] u = tt
  evict-Unique n (e ∷ l) u = elim (Bool-cases (ltb n (length (e ∷ l)))) [
    | inl t ↦ rw t (evict-Unique n l u.1)
    | inr t ↦ rw t u
  ]

  pub length-evict-le : (n : ℕ) (l : List (ℕ × FolderCache E)) → length (evict n l) ≤ n
  unfolding evict
  length-evict-le n [] = omega arith
  length-evict-le n (e ∷ l) = ground (arith, length-evict-le n l)

  pub length-without-le : (k : ℕ) (l : List (ℕ × FolderCache E)) → length (without k l) ≤ length l
  unfolding without
  length-without-le k [] = omega arith
  length-without-le k ((j, fc) ∷ l) = ground (arith, length-without-le k l)

  -- A present key has one entry more than the list without it.
  pub length-without_present :
      (k : ℕ) (l : List (ℕ × FolderCache E)) {fc : FolderCache E}
      → lookup k l ≡ some fc
      → length (without k l) + 1 ≤ length l
  unfolding lookup without
  length-without_present k [] h = absurd (ground arith)
  length-without_present k ((j, f) ∷ l) {fc} h =
      ground (arith, length-without-le k l, length-without_present k l {fc = fc})

  lookup_last :
      (k : ℕ) (fc : FolderCache E) (l : List (ℕ × FolderCache E))
      → All (λ e. key e ≢ k) l
      → lookup k (l ++ (k, fc) ∷ []) ≡ some fc
  unfolding lookup
  lookup_last k fc [] h = ground arith
  lookup_last k fc ((j, f) ∷ l) h = ground (arith, h.0, lookup_last k fc l h.1)

  -- The last entry of a list is there after an eviction that leaves room for one.
  lookup-evict_last :
      (n k : ℕ) (fc : FolderCache E) (l : List (ℕ × FolderCache E))
      → 0 < n
      → All (λ e. key e ≢ k) l
      → lookup k (evict n (l ++ (k, fc) ∷ [])) ≡ some fc
  unfolding evict
  lookup-evict_last n k fc [] p h =
      rw (let t : ltb n 1 ≡ false = ground arith in t) (lookup_last k fc [] tt)
  lookup-evict_last n k fc (e ∷ l) p h =
      elim (Bool-cases (ltb n (length (e ∷ (l ++ (k, fc) ∷ []))))) [
        | inl t ↦ rw t (lookup-evict_last n k fc l p h.1)
        | inr t ↦ rw t (lookup_last k fc (e ∷ l) h)
      ]

  evict_room : (n : ℕ) (l : List (ℕ × FolderCache E)) → length l ≤ n → evict n l ≡ l
  unfolding evict
  evict_room n [] h = refl
  evict_room n (e ∷ l) h = ground arith

  evict_one :
      (n : ℕ) (e : ℕ × FolderCache E) (l : List (ℕ × FolderCache E))
      → length l ≡ n
      → evict n (e ∷ l) ≡ l
  unfolding evict
  evict_one n e l h = ground (arith, evict_room n l)

  without_missing : (k : ℕ) (l : List (ℕ × FolderCache E)) → lookup k l ≡ none → without k l ≡ l
  unfolding lookup without
  without_missing k [] h = refl
  without_missing k ((j, fc) ∷ l) h = ground (arith, without_missing k l)

  -- With room for one folder at least, a folder that was just put is returned while it is younger
  -- than the time to live, and nothing is returned from then on.
  pub get-put :
      (now k : ℕ) (fc : FolderCache E) (cache : MetadataCache E)
      → 0 < cache.max_folders
      → (get now k (put k fc cache)).1 ≡ (if is_valid now fc then some fc else none)
  unfolding get put
  get-put now k fc cache p =
      rw
        (lookup-evict_last cache.max_folders k fc (without k cache.folders) p
          (without_absent k cache.folders))
        (ground arith)

  -- A new folder put into a full cache takes the place of the folder in front, which is the one that
  -- was put or returned longest ago, and all others stay in their order.
  pub put-evicts :
      (k : ℕ) (fc : FolderCache E) (cache : MetadataCache E) (e : ℕ × FolderCache E)
      (rest : List (ℕ × FolderCache E))
      → cache.folders ≡ e ∷ rest
      → length (e ∷ rest) ≡ cache.max_folders
      → lookup k (e ∷ rest) ≡ none
      → (put k fc cache).folders ≡ rest ++ (k, fc) ∷ []
  unfolding put
  put-evicts k fc cache e rest same full absent =
      rw (same, without_missing k (e ∷ rest) absent)
        (evict_one cache.max_folders e (rest ++ (k, fc) ∷ [])
          (omega (arith, length-append rest ((k, fc) ∷ []), full)))

  -- A folder that is returned goes to the end of the eviction order, and the others keep theirs.
  pub get-touches :
      (now k : ℕ) (cache : MetadataCache E) (fc : FolderCache E)
      → (get now k cache).1 ≡ some fc
      → (get now k cache).0.folders ≡ without k cache.folders ++ (k, fc) ∷ []
  unfolding get
  get-touches now k cache fc h = ground arith
