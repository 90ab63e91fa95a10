-- ===== src/Folders/Tree.antt =====
-- The folders of backend/app/routers/folders.py as a forest: no folder is above itself, so the calls
-- that go down from a folder end.
use mathlib.Core.Option.{some-injective}
use local_ai_search.Prelude.{
  ℕ, ◌<◌, ◌≡◌, ◌≢◌, refl, ap, sym, ◌∙◌, true, false, Option, none, some, List, [], ◌∷◌, arith, ◌==◌,
  some_eq, In, Bool-cases, inl, inr, contains, is_some, ==_iff, All, All-map, All-In,
  All-select_and, All-at, UniqueBy,
}
use local_ai_search.Models.{Folder}
use local_ai_search.Folders.{folder_of, parent_of, children_of}
use local_ai_search.Folders.Cycles.{Rooted, IsForest, unvisited, unvisited-lt}

-- No two folders have one id, and the way up from each comes to an end.
pub record IsTree (folders : List Folder) : Type 0 where
  pub unique : UniqueBy (λ (f : Folder). f.id) folders
  pub forest : IsForest folders

-- A folder, and one that is above it.
pub data Up (folders : List Folder) : ℕ → ℕ → Type 0 where
  parent :
      (child above : ℕ) → parent_of (folder_of child folders) ≡ some above → Up folders child above
  further :
      (child next above : ℕ)
      → parent_of (folder_of child folders) ≡ some next
      → Up folders next above
      → Up folders child above

Up-parent :
    (folders : List Folder) (top : ℕ) {child above : ℕ}
    → Up folders child above
    → parent_of (folder_of above folders) ≡ some top
    → Up folders child top
Up-parent folders top (Up.parent child above e) h =
    Up.further child above top e (Up.parent above top h)
Up-parent folders top (Up.further child next above e u) h =
    Up.further child next top e (Up-parent folders top u h)

-- The parent of a folder that is above itself is above itself too.
turn :
    (folders : List Folder) {x y : ℕ}
    → Up folders x y
    → x ≡ y
    → (c : ℕ) × (parent_of (folder_of x folders) ≡ some c) × Up folders c c
turn folders (Up.parent child above e) same =
    (above, e, Up.parent above above (ap (λ k. parent_of (folder_of k folders)) (sym same) ∙ e))
turn folders (Up.further child next above e u) same =
    (next, e, Up-parent folders next u (ap (λ k. parent_of (folder_of k folders)) (sym same) ∙ e))

no_loop :
    (folders : List Folder) {p : Option ℕ}
    → Rooted folders p
    → (b : ℕ) → p ≡ some b
    → Up folders b b
    → ⊥
no_loop folders Rooted.top b e u = cc
no_loop folders (Rooted.under x r) b e u =
    let same : x ≡ b = some-injective x b e in
    let (c, p, loop) = turn folders u refl in
    no_loop folders r c (ap (λ k. parent_of (folder_of k folders)) same ∙ p) loop

-- The row of a folder in a table with different ids.
pub folder_of_row :
    (folders : List Folder) (f : Folder)
    → UniqueBy (λ (f : Folder). f.id) folders
    → In f folders
    → folder_of f.id folders ≡ some f
unfolding folder_of
folder_of_row [] f u m = elim m [ ]
folder_of_row (g ∷ folders) f u (inl e) = rw e (ground arith)
folder_of_row (g ∷ folders) f u (inr m) =
    let other : f.id ≢ g.id = All-at _ folders u.0 m in
    rw (let t : (g.id == f.id) ≡ false = ground arith in t) (folder_of_row folders f u.1 m)

-- All ids of the list are above the folder.
abbrev pub AllAbove : List Folder → ℕ → List ℕ → Type 0
AllAbove folders folder_id chain = All (λ a. Up folders folder_id a) chain

fresh :
    (folders : List Folder) (folder_id : ℕ) (chain : List ℕ)
    → IsForest folders
    → AllAbove folders folder_id chain
    → contains chain folder_id ≡ false
fresh folders folder_id [] forest h = refl
fresh folders folder_id (a ∷ chain) forest h = elim (Bool-cases (a == folder_id)) [
  | inl e ↦
      let same : a ≡ folder_id = (==_iff a folder_id).0 e in
      absurd (no_loop folders (forest folder_id) folder_id refl (rw same at h.0))
  | inr e ↦ rw e (fresh folders folder_id chain forest h.1)
]

has_row : (o : Option Folder) (k : ℕ) → parent_of o ≡ some k → is_some o ≡ true
has_row none k e = cc
has_row (some f) k e = refl

-- One step down from a folder there: the chain grows, and fewer folders are left outside.
pub step_down :
    (folders : List Folder) (child folder_id : ℕ) (chain : List ℕ)
    → IsForest folders
    → is_some (folder_of folder_id folders) ≡ true
    → AllAbove folders folder_id chain
    → parent_of (folder_of child folders) ≡ some folder_id
    → AllAbove folders child (folder_id ∷ chain)
      × (is_some (folder_of child folders) ≡ true)
      × (unvisited (folder_id ∷ chain) folders < unvisited chain folders)
step_down folders child folder_id chain forest there above up = (
  (
    Up.parent child folder_id up,
    All-map _ _ chain (λ a u. Up.further child folder_id a up u) above,
  ),
  has_row _ folder_id up,
  unvisited-lt folder_id chain folders (fresh folders folder_id chain forest above) there,
)

-- The parent of a row, by its id.
pub row-parent :
    (folders : List Folder) (f : Folder) (folder_id : ℕ)
    → UniqueBy (λ (f : Folder). f.id) folders
    → In f folders
    → f.parent_id ≡ some folder_id
    → parent_of (folder_of f.id folders) ≡ some folder_id
row-parent folders f folder_id unique m e = rw (folder_of_row folders f unique m) e

some_eq-some : (o : Option ℕ) (k : ℕ) → some_eq o k ≡ true → o ≡ some k
some_eq-some none k e = cc
some_eq-some (some x) k e = ap some ((==_iff x k).0 e)

pub children_rows :
    (folder_id : ℕ) (folders : List Folder)
    → All (λ f. In f folders × (f.parent_id ≡ some folder_id)) (children_of folder_id folders)
children_rows folder_id folders =
    All-map _ _ (children_of folder_id folders)
      (λ f h. (h.0, some_eq-some f.parent_id folder_id h.1))
      (All-select_and (λ f. In f folders) (λ f. some_eq f.parent_id folder_id) folders
        (All-In folders))

-- A folder at or below another.
pub data Below (folders : List Folder) : ℕ → ℕ → Type 0 where
  itself : (k : ℕ) → Below folders k k
  in_child :
      (above child k : ℕ)
      → parent_of (folder_of child folders) ≡ some above
      → Below folders child k
      → Below folders above k
