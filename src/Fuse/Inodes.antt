-- ===== src/Fuse/Inodes.antt =====
-- The inode table of backend/app/fuse_server.py. The module's dicts are functions from their keys.
pub mod Table
mod Tests
use local_ai_search.Prelude.{
  ℕ, ◌+◌, ◌≡◌, ◌↔◌, refl, ap, Bool, true, false, ◌&&◌, Option, none, some, [], Text, codes, text_eq,
  text_eq_iff, arith, ◌==◌, if◌then◌else◌,
}

-- (kind, database id)
abbrev pub Key : Type 0
Key = Text × Text

abbrev pub key_eq : Key → Key → Bool
key_eq (kind, db_id) (kind', db_id') = text_eq kind kind' && text_eq db_id db_id'

pub key_eq_iff : (a b : Key) → (key_eq a b ≡ true) ↔ (a ≡ b)
key_eq_iff (kind, db_id) (kind', db_id') =
    ground (arith, text_eq_iff kind kind', text_eq_iff db_id db_id')

pub record Inodes : Type 0 where
  pub next_inode : ℕ
  pub inode_to_key : ℕ → Option Key
  pub key_to_inode : Key → Option ℕ
  pub inode_to_parent : ℕ → Option ℕ

abbrev pub root_inode : ℕ
root_inode = 1

abbrev pub root_key : Key
root_key = (codes "root", [])

unfoldable pub init : Inodes
init = record {
  next_inode = 2;
  inode_to_key = λ ino. if ino == root_inode then some root_key else none;
  key_to_inode = λ key. if key_eq key root_key then some root_inode else none;
  inode_to_parent = λ ino. none;
}

-- `if parent_inode: _inode_to_parent[ino] = parent_inode`
abbrev pub set_parent : (ino parent_inode : ℕ) → (ℕ → Option ℕ) → ℕ → Option ℕ
set_parent ino parent_inode parents child =
    if parent_inode == 0
    then parents child
    else if child == ino
    then some parent_inode
    else parents child

-- The table after the call, and the inode that it returns.
abbrev pub alloc_from : Option ℕ → Key → (parent_inode : ℕ) → Inodes → Inodes × ℕ
alloc_from (some ino) key parent_inode t =
    (record t { inode_to_parent = set_parent ino parent_inode t.inode_to_parent }, ino)
alloc_from none key parent_inode t = (
  record {
    next_inode = t.next_inode + 1;
    inode_to_key = λ ino. if ino == t.next_inode then some key else t.inode_to_key ino;
    key_to_inode = λ k. if key_eq k key then some t.next_inode else t.key_to_inode k;
    inode_to_parent = set_parent t.next_inode parent_inode t.inode_to_parent;
  },
  t.next_inode,
)

unfoldable pub get_or_alloc_inode : Key → (parent_inode : ℕ) → Inodes → Inodes × ℕ
get_or_alloc_inode key parent_inode t = alloc_from (t.key_to_inode key) key parent_inode t

unfoldable pub inode_key : ℕ → Inodes → Option Key
inode_key inode t = t.inode_to_key inode
