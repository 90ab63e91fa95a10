-- ===== src/Fuse/Inodes/Table.antt =====
-- The two dicts of the inode table of backend/app/fuse_server.py are inverse to one another.
use mathlib.Core.Option.{some-injective}
use local_ai_search.Prelude.{
  ℕ, ◌<◌, ◌≡◌, ◌≢◌, ◌↔◌, refl, sym, ap, ◌∙◌, Option, none, some, List, [], ◌∷◌, arith,
}
use local_ai_search.Fuse.Inodes.{
  Key, key_eq_iff, Inodes, root_key, init, alloc_from, get_or_alloc_inode, inode_key,
}

pub record IsTable (t : Inodes) : Type 0 where
  pub below : (ino : ℕ) (key : Key) → t.inode_to_key ino ≡ some key → ino < t.next_inode
  pub forth : (ino : ℕ) (key : Key) → t.inode_to_key ino ≡ some key → t.key_to_inode key ≡ some ino
  pub back : (ino : ℕ) (key : Key) → t.key_to_inode key ≡ some ino → t.inode_to_key ino ≡ some key

pub init-IsTable : IsTable init
unfolding init
init-IsTable = record {
  below = λ ino key h. ground arith;
  forth = λ ino key h. ground (arith, key_eq_iff key root_key);
  back = λ ino key h. ground (arith, key_eq_iff key root_key);
}

-- What one call does to the table.
pub record Allocated (key : Key) (t u : Inodes) (ino : ℕ) : Type 0 where
  pub table : IsTable u
  pub named : inode_key ino u ≡ some key
  pub kept : (j : ℕ) (k : Key) → inode_key j t ≡ some k → inode_key j u ≡ some k
  pub others : (j : ℕ) → j ≢ ino → inode_key j u ≡ inode_key j t

alloc_from-Allocated :
    (r : Option ℕ) (key : Key) (parent_inode : ℕ) (t : Inodes)
    → t.key_to_inode key ≡ r
    → IsTable t
    → Allocated key t (alloc_from r key parent_inode t).0 (alloc_from r key parent_inode t).1
unfolding inode_key
alloc_from-Allocated (some ino) key parent_inode t e v = record {
  table = record { below = v.below; forth = v.forth; back = v.back };
  named = v.back ino key e;
  kept = λ j k h. h;
  others = λ j h. refl;
}
alloc_from-Allocated none key parent_inode t e v = record {
  table = record {
    below = λ j k h. ground (arith, v.below j k);
    forth = λ j k h. ground (arith, v.below j k, v.forth j k, key_eq_iff k key);
    back = λ j k h. ground (arith, v.back j k, v.below j k, key_eq_iff k key);
  };
  named = ground arith;
  kept = λ j k h. ground (arith, v.below j k);
  others = λ j h. ground arith;
}

-- On a table whose two dicts are inverse and whose inodes are below the next one, a call keeps it
-- so, returns an inode that stands for the given kind and database id, and changes no other inode.
pub get_or_alloc_inode-Allocated :
    (key : Key) (parent_inode : ℕ) (t : Inodes)
    → IsTable t
    → Allocated key t
        (get_or_alloc_inode key parent_inode t).0
        (get_or_alloc_inode key parent_inode t).1
unfolding get_or_alloc_inode
get_or_alloc_inode-Allocated key parent_inode t v =
    alloc_from-Allocated (t.key_to_inode key) key parent_inode t refl v

-- A run of calls, each with its key and its parent inode.
unfoldable pub alloc_all : List (Key × ℕ) → Inodes → Inodes
alloc_all [] t = t
alloc_all ((key, parent_inode) ∷ calls) t =
    alloc_all calls (get_or_alloc_inode key parent_inode t).0

alloc_all-IsTable : (calls : List (Key × ℕ)) (t : Inodes) → IsTable t → IsTable (alloc_all calls t)
unfolding alloc_all
alloc_all-IsTable [] t v = v
alloc_all-IsTable ((key, parent_inode) ∷ calls) t v =
    alloc_all-IsTable calls _ (get_or_alloc_inode-Allocated key parent_inode t v).table

alloc_all-kept :
    (calls : List (Key × ℕ)) (t : Inodes) (j : ℕ) (k : Key)
    → IsTable t
    → inode_key j t ≡ some k
    → inode_key j (alloc_all calls t) ≡ some k
unfolding alloc_all
alloc_all-kept [] t j k v h = h
alloc_all-kept ((key, parent_inode) ∷ calls) t j k v h =
    let a = get_or_alloc_inode-Allocated key parent_inode t v in
    alloc_all-kept calls _ j k a.table (a.kept j k h)

-- In such a table two used inodes are one exactly when they stand for one key.
one_inode :
    (w : Inodes) (i j : ℕ) (key key' : Key)
    → IsTable w
    → inode_key i w ≡ some key
    → inode_key j w ≡ some key'
    → (i ≡ j) ↔ (key ≡ key')
unfolding inode_key
one_inode w i j key key' v p q = (
  λ e. some-injective key key' (sym p ∙ (ap (λ (n : ℕ). w.inode_to_key n) e ∙ q)),
  λ e.
      some-injective i j
        (sym (v.forth i key p) ∙ (ap (λ (k : Key). w.key_to_inode k) e ∙ v.forth j key' q)),
)

-- However many calls lie between two calls, before which any calls were made from the server's
-- start: the two return one inode exactly when they name one kind and database id.
pub get_or_alloc_inode-stable :
    (before between : List (Key × ℕ)) (key key' : Key) (parent parent' : ℕ)
    → let t = alloc_all before init in
      let (u, ino) = get_or_alloc_inode key parent t in
      let (w, ino') = get_or_alloc_inode key' parent' (alloc_all between u) in
      (ino ≡ ino') ↔ (key ≡ key')
get_or_alloc_inode-stable before between key key' parent parent' =
    let t : Inodes = alloc_all before init in
    let first =
      get_or_alloc_inode-Allocated key parent t (alloc_all-IsTable before init init-IsTable) in
    let u : Inodes = (get_or_alloc_inode key parent t).0 in
    let ino : ℕ = (get_or_alloc_inode key parent t).1 in
    let v : Inodes = alloc_all between u in
    let second =
      get_or_alloc_inode-Allocated key' parent' v (alloc_all-IsTable between u first.table) in
    let w : Inodes = (get_or_alloc_inode key' parent' v).0 in
    let ino' : ℕ = (get_or_alloc_inode key' parent' v).1 in
    let still : inode_key ino w ≡ some key =
      second.kept ino key (alloc_all-kept between u ino key first.table first.named) in
    one_inode w ino ino' key key' second.table still second.named
