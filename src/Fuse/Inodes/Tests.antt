-- ===== src/Fuse/Inodes/Tests.antt =====
-- The inode table of backend/app/fuse_server.py at a concrete run of calls.
use local_ai_search.Prelude.{◌≡◌, ◌↔◌, List, [], ◌∷◌, ℕ, codes}
use local_ai_search.Fuse.Inodes.{Key, init, get_or_alloc_inode}
use local_ai_search.Fuse.Inodes.Table.{alloc_all, get_or_alloc_inode-stable}

abbrev report : Key
report = (codes "document", codes "a1")

abbrev folder : Key
folder = (codes "folder", codes "b2")

abbrev others : List (Key × ℕ)
others = (folder, 1) ∷ []

get_or_alloc_inode-stable_example :
    let (u, ino) = get_or_alloc_inode report 1 (alloc_all [] init) in
    let (w, ino') = get_or_alloc_inode report 2 (alloc_all others u) in
    (ino ≡ ino') ↔ (report ≡ report)
get_or_alloc_inode-stable_example = get_or_alloc_inode-stable [] others report report 1 2
