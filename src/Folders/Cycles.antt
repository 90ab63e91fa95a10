-- ===== src/Folders/Cycles.antt =====
-- `_check_no_cycle` of backend/app/routers/folders.py keeps the folders a forest.
use local_ai_search.Prelude.{
  ℕ, zero, suc, ◌+◌, ◌≤◌, ◌<◌, ◌≡◌, ◌≢◌, refl, ap, Bool, true, false, not, Option, none, some, List,
  [], ◌∷◌, arith, ◌==◌, if◌then◌else◌, Bool-cases, Option-cases, inl, inr, length, select,
  update_where, contains, is_some, ==_iff,
}
use local_ai_search.Models.{Folder}
use local_ai_search.Folders.{folder_of, parent_of, walk_up, check_no_cycle}

-- The way up from a folder comes to an end.
pub data Rooted (folders : List Folder) : Option ℕ → Type 0 where
  top : Rooted folders none
  under :
      (folder_id : ℕ)
      → Rooted folders (parent_of (folder_of folder_id folders))
      → Rooted folders (some folder_id)

-- It does so without passing a given folder.
pub data Avoids (folders : List Folder) (avoided : ℕ) : Option ℕ → Type 0 where
  top : Avoids folders avoided none
  under :
      (folder_id : ℕ)
      → folder_id ≢ avoided
      → Avoids folders avoided (parent_of (folder_of folder_id folders))
      → Avoids folders avoided (some folder_id)

abbrev pub IsForest : List Folder → Type 0
IsForest folders = (folder_id : ℕ) → Rooted folders (some folder_id)

-- `folder.parent_id = new_parent_id`
abbrev pub move_to : (folder_id : ℕ) (new_parent_id : Option ℕ) → List Folder → List Folder
move_to folder_id new_parent_id =
    update_where (λ f. f.id == folder_id) (λ f. record f { parent_id = new_parent_id })

walk_up-Avoids :
    (fuel : ℕ) (folders : List Folder) (folder_id : ℕ) (current : Option ℕ) (visited : List ℕ)
    → walk_up fuel folders folder_id current visited ≡ some true
    → Avoids folders folder_id current
unfolding walk_up
walk_up-Avoids zero folders folder_id current visited e = absurd (ground arith)
walk_up-Avoids (suc fuel) folders folder_id none visited e = Avoids.top
walk_up-Avoids (suc fuel) folders folder_id (some current) visited e =
    Avoids.under current (ground arith)
      (walk_up-Avoids fuel folders folder_id _ (current ∷ visited) (ground arith))

pub folder_of-moved :
    (folders : List Folder) (folder_id : ℕ) (p : Option ℕ) (j : ℕ)
    → j ≢ folder_id
    → parent_of (folder_of j (move_to folder_id p folders)) ≡ parent_of (folder_of j folders)
unfolding folder_of
folder_of-moved [] folder_id p j h = refl
folder_of-moved (f ∷ folders) folder_id p j h =
    ground (arith, folder_of-moved folders folder_id p j h)

-- Behind a move the folder is at the top, as a folder that is not there, or under its new parent.
parent-moved :
    (folders : List Folder) (folder_id : ℕ) (p : Option ℕ)
    → (P : Option ℕ → Type 0) → P none
    → P p
    → P (parent_of (folder_of folder_id (move_to folder_id p folders)))
unfolding folder_of
parent-moved [] folder_id p P at_none at_p = at_none
parent-moved (f ∷ folders) folder_id p P at_none at_p = elim (Bool-cases (f.id == folder_id)) [
  | inl e ↦ rw e (rw e at_p)
  | inr e ↦ rw e (rw e (parent-moved folders folder_id p P at_none at_p))
]

Avoids-moved :
    (folders : List Folder) (folder_id : ℕ) (p : Option ℕ) {j : Option ℕ}
    → Avoids folders folder_id j
    → Rooted (move_to folder_id p folders) j
Avoids-moved folders folder_id p Avoids.top = Rooted.top
Avoids-moved folders folder_id p (Avoids.under j h a) =
    Rooted.under j
      (rw (folder_of-moved folders folder_id p j h) (Avoids-moved folders folder_id p a))

pub Rooted-moved :
    (folders : List Folder) (folder_id : ℕ) (p : Option ℕ)
    → Avoids folders folder_id p
    → {j : Option ℕ} → Rooted folders j
    → Rooted (move_to folder_id p folders) j
Rooted-moved folders folder_id p a Rooted.top = Rooted.top
Rooted-moved folders folder_id p a (Rooted.under j r) = elim (Bool-cases (j == folder_id)) [
  | inl e ↦ Rooted.under j (
      rw ((==_iff j folder_id).0 e) (
        parent-moved folders folder_id p (Rooted (move_to folder_id p folders)) Rooted.top
          (Avoids-moved folders folder_id p a)))
  | inr e ↦ Rooted.under j (
      rw (folder_of-moved folders folder_id p j (ground arith))
        (Rooted-moved folders folder_id p a r))
]

-- What `_check_no_cycle` allows does not pass the folder.
pub check_no_cycle-Avoids :
    (folders : List Folder) (folder_id new_parent_id : ℕ)
    → check_no_cycle folders folder_id new_parent_id ≡ some true
    → Avoids folders folder_id (some new_parent_id)
unfolding check_no_cycle
check_no_cycle-Avoids folders folder_id new_parent_id allowed =
    walk_up-Avoids _ folders folder_id (some new_parent_id) [] allowed

-- The rows that the walk has not visited.
abbrev pub unvisited : List ℕ → List Folder → ℕ
unvisited visited folders = length (select (λ f. not (contains visited f.id)) folders)

unvisited-le :
    (current : ℕ) (visited : List ℕ) (folders : List Folder)
    → unvisited (current ∷ visited) folders ≤ unvisited visited folders
unvisited-le current visited [] = omega arith
unvisited-le current visited (f ∷ folders) = ground (arith, unvisited-le current visited folders)

pub unvisited-lt :
    (current : ℕ) (visited : List ℕ) (folders : List Folder)
    → contains visited current ≡ false
    → is_some (folder_of current folders) ≡ true
    → unvisited (current ∷ visited) folders < unvisited visited folders
unfolding folder_of
unvisited-lt current visited [] fresh there = absurd (ground arith)
unvisited-lt current visited (f ∷ folders) fresh there =
    ground (arith, unvisited-le current visited folders, unvisited-lt current visited folders fresh)

walk_up-top :
    (fuel : ℕ) (folders : List Folder) (folder_id : ℕ) (visited : List ℕ)
    → 0 < fuel
    → walk_up fuel folders folder_id none visited ≡ some true
unfolding walk_up
walk_up-top zero folders folder_id visited p = absurd (omega arith)
walk_up-top (suc fuel) folders folder_id visited p = refl

-- A round returns, or the rest of the walk does.
round_ends :
    (a b : Bool) (rest : Option Bool)
    → (b ≡ false → is_some rest ≡ true)
    → is_some (if a then some false else if b then some false else rest) ≡ true
round_ends true b rest h = refl
round_ends false true rest h = refl
round_ends false false rest h = h refl

walk_up-ends :
    (fuel : ℕ) (folders : List Folder) (folder_id : ℕ) (current : Option ℕ) (visited : List ℕ)
    → unvisited visited folders + 1 < fuel
    → is_some (walk_up fuel folders folder_id current visited) ≡ true
unfolding walk_up
walk_up-ends zero folders folder_id current visited p = absurd (omega arith)
walk_up-ends (suc fuel) folders folder_id none visited p = refl
walk_up-ends (suc fuel) folders folder_id (some current) visited p =
    round_ends (current == folder_id) (contains visited current) _ (λ fresh.
      elim (Option-cases (folder_of current folders)) [
        | inl gone ↦
            rw gone
              (ap is_some (walk_up-top fuel folders folder_id (current ∷ visited) (omega arith)))
        | inr (f, there) ↦
            walk_up-ends fuel folders folder_id _ (current ∷ visited)
              (omega (arith, unvisited-lt current visited folders fresh (ap is_some there)))
      ])

pub all_unvisited : (folders : List Folder) → unvisited [] folders ≡ length folders
all_unvisited [] = refl
all_unvisited (f ∷ folders) = omega (arith, all_unvisited folders)

-- The check ends on every table, a cyclic one too.
pub check_no_cycle-ends :
    (folders : List Folder) (folder_id new_parent_id : ℕ)
    → is_some (check_no_cycle folders folder_id new_parent_id) ≡ true
unfolding check_no_cycle
check_no_cycle-ends folders folder_id new_parent_id =
    walk_up-ends (length folders + 2) folders folder_id (some new_parent_id) []
      (omega (arith, all_unvisited folders))
