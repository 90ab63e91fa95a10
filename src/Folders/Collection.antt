-- ===== src/Folders/Collection.antt =====
-- The ids that `_collect_ids` of `delete_folder` collects (backend/app/routers/folders.py).
use mathlib.Core.Path.{subst}
use mathlib.Core.Option.{some-injective}
use local_ai_search.Prelude.{
  All-append, ℕ, zero, suc, ◌<◌, ◌≡◌, refl, sym, true, ◌||◌, Option, none, some, List, [], ◌∷◌,
  ◌++◌, arith, ◌==◌, map, Bool-cases, Option-cases, inl, inr, contains, is_some, ==_iff, All,
  All-map,
}
use local_ai_search.Models.{Folder}
use local_ai_search.Folders.{parent_of, folder_of, children_of}
use local_ai_search.Folders.Cycles.{unvisited}
use local_ai_search.Folders.Tree.{Below, IsTree, AllAbove, step_down, row-parent, children_rows}
use local_ai_search.Folders.Delete.{collect_each, collect_ids, cons_id, append_found}

collect_each-ends :
    (collect : ℕ → Option (List ℕ)) (rows : List Folder)
    → All (λ f. is_some (collect f.id) ≡ true) rows
    → is_some (collect_each collect (map (λ f. f.id) rows)) ≡ true
unfolding collect_each
collect_each-ends collect [] h = refl
collect_each-ends collect (f ∷ rows) h = elim (Option-cases (collect f.id)) [
  | inl e ↦ absurd (ground (arith, h.0))
  | inr (ids, e) ↦ rw e (ground (arith, collect_each-ends collect rows h.1))
]

cons_id-ends : (id : ℕ) (o : Option (List ℕ)) → is_some o ≡ true → is_some (cons_id id o) ≡ true
cons_id-ends id none h = h
cons_id-ends id (some ids) h = refl

pub collect_ids-ends :
    (fuel : ℕ) (folders : List Folder) (folder_id : ℕ) (chain : List ℕ)
    → IsTree folders
    → is_some (folder_of folder_id folders) ≡ true
    → AllAbove folders folder_id chain
    → unvisited chain folders < fuel
    → is_some (collect_ids fuel folders folder_id) ≡ true
unfolding collect_ids
collect_ids-ends zero folders folder_id chain tree there above p = absurd (omega arith)
collect_ids-ends (suc fuel) folders folder_id chain tree there above p = cons_id-ends folder_id _ (
    collect_each-ends (collect_ids fuel folders) (children_of folder_id folders) (
      All-map _ _ (children_of folder_id folders)
        (λ f row.
          let up = row-parent folders f folder_id tree.unique row.0 row.1 in
          let (above', there', fewer) =
            step_down folders f.id folder_id chain tree.forest there above up in
          collect_ids-ends fuel folders f.id (folder_id ∷ chain) tree there' above' (omega arith))
        (children_rows folder_id folders)))

-- With a folder the list has its children.
abbrev pub Closed : List Folder → List ℕ → Type 0
Closed folders ids =
    (k : ℕ) → contains ids k ≡ true → All (λ f. contains ids f.id ≡ true) (children_of k folders)

contains-append :
    (xs ys : List ℕ) (k : ℕ) → contains (xs ++ ys) k ≡ (contains xs k || contains ys k)
contains-append [] ys k = refl
contains-append (x ∷ xs) ys k = ground (arith, contains-append xs ys k)

All-contains_widen :
    (ids wider : List ℕ) (rows : List Folder)
    → ((k : ℕ) → contains ids k ≡ true → contains wider k ≡ true)
    → All (λ f. contains ids f.id ≡ true) rows
    → All (λ f. contains wider f.id ≡ true) rows
All-contains_widen ids wider rows w h = All-map _ _ rows (λ f t. w f.id t) h

left_part : (xs ys : List ℕ) (k : ℕ) → contains xs k ≡ true → contains (xs ++ ys) k ≡ true
left_part xs ys k h = rw (contains-append xs ys k, h)

right_part : (xs ys : List ℕ) (k : ℕ) → contains ys k ≡ true → contains (xs ++ ys) k ≡ true
right_part xs ys k h = rw (contains-append xs ys k) (ground arith)

cons_part : (x : ℕ) (xs : List ℕ) (k : ℕ) → contains xs k ≡ true → contains (x ∷ xs) k ≡ true
cons_part x xs k h = ground arith

Closed-append :
    (folders : List Folder) (xs ys : List ℕ)
    → Closed folders xs
    → Closed folders ys
    → Closed folders (xs ++ ys)
Closed-append folders xs ys cx cy k h = elim (Bool-cases (contains xs k)) [
  | inl e ↦ All-contains_widen xs (xs ++ ys) (children_of k folders) (left_part xs ys) (cx k e)
  | inr e ↦
      let in_ys : contains ys k ≡ true = ground (arith, contains-append xs ys k) in
      All-contains_widen ys (xs ++ ys) (children_of k folders) (right_part xs ys) (cy k in_ys)
]

Closed-cons :
    (folders : List Folder) (folder_id : ℕ) (ids : List ℕ)
    → All (λ f. contains ids f.id ≡ true) (children_of folder_id folders)
    → Closed folders ids
    → Closed folders (folder_id ∷ ids)
Closed-cons folders folder_id ids children closed k h = elim (Bool-cases (folder_id == k)) [
  | inl e ↦
      All-contains_widen ids (folder_id ∷ ids) (children_of k folders) (cons_part folder_id ids)
        (rw (sym ((==_iff folder_id k).0 e)) children)
  | inr e ↦
      All-contains_widen ids (folder_id ∷ ids) (children_of k folders) (cons_part folder_id ids)
        (closed k (ground arith))
]

-- What a call that collects from a folder promises.
abbrev pub Collected : List Folder → ℕ → List ℕ → Type 0
Collected folders k ids = (contains ids k ≡ true) × Closed folders ids

append_found-some :
    (a b : Option (List ℕ)) (ids : List ℕ)
    → append_found a b ≡ some ids
    → (xs ys : List ℕ) × (a ≡ some xs) × (b ≡ some ys) × (ids ≡ xs ++ ys)
append_found-some none b ids e = cc
append_found-some (some xs) none ids e = cc
append_found-some (some xs) (some ys) ids e =
    (xs, ys, refl, refl, sym (some-injective (xs ++ ys) ids e))

collect_each-Closed :
    (folders : List Folder) (collect : ℕ → Option (List ℕ)) (rows : List Folder) (ids : List ℕ)
    → ((k : ℕ) (found_ids : List ℕ) → collect k ≡ some found_ids → Collected folders k found_ids)
    → collect_each collect (map (λ f. f.id) rows) ≡ some ids
    → All (λ f. contains ids f.id ≡ true) rows × Closed folders ids
unfolding collect_each
collect_each-Closed folders collect [] ids h e =
    (tt, rw (sym (some-injective [] ids e)) (λ k t. cc))
collect_each-Closed folders collect (f ∷ rows) ids h e =
    let (xs, ys, a, b, same) = append_found-some (collect f.id) _ ids e in
    let (has_f, closed_f) = h f.id xs a in
    let (has_rest, closed_rest) = collect_each-Closed folders collect rows ys h b in
    subst (λ l. All (λ g. contains l g.id ≡ true) (f ∷ rows) × Closed folders l) (sym same)
      (
        (
          left_part xs ys f.id has_f,
          All-contains_widen ys (xs ++ ys) rows (right_part xs ys) has_rest,
        ),
        Closed-append folders xs ys closed_f closed_rest,
      )

cons_id-some :
    (id : ℕ) (o : Option (List ℕ)) (ids : List ℕ)
    → cons_id id o ≡ some ids
    → (rest : List ℕ) × (o ≡ some rest) × (ids ≡ id ∷ rest)
cons_id-some id none ids e = cc
cons_id-some id (some rest) ids e = (rest, refl, sym (some-injective (id ∷ rest) ids e))

pub collect_ids-Collected :
    (fuel : ℕ) (folders : List Folder) (folder_id : ℕ) (ids : List ℕ)
    → collect_ids fuel folders folder_id ≡ some ids
    → Collected folders folder_id ids
unfolding collect_ids
collect_ids-Collected zero folders folder_id ids e = cc
collect_ids-Collected (suc fuel) folders folder_id ids e =
    let (rest, collected, same) = cons_id-some folder_id _ ids e in
    let (children, closed) =
      collect_each-Closed folders (collect_ids fuel folders) (children_of folder_id folders) rest
        (λ k found_ids t. collect_ids-Collected fuel folders k found_ids t) collected in
    subst (Collected folders folder_id) (sym same)
      (ground arith, Closed-cons folders folder_id rest children closed)

-- Only the folder and what is below it are collected.
collect_each-Below :
    (folders : List Folder) (folder_id : ℕ) (collect : ℕ → Option (List ℕ)) (rows : List Folder)
    (ids : List ℕ)
    → ((k : ℕ) (found_ids : List ℕ) → collect k ≡ some found_ids → All (Below folders k) found_ids)
    → All (λ f. parent_of (folder_of f.id folders) ≡ some folder_id) rows
    → collect_each collect (map (λ f. f.id) rows) ≡ some ids
    → All (Below folders folder_id) ids
unfolding collect_each
collect_each-Below folders folder_id collect [] ids h up e =
    subst (All (Below folders folder_id)) (some-injective [] ids e) tt
collect_each-Below folders folder_id collect (f ∷ rows) ids h up e =
    let (xs, ys, a, b, same) = append_found-some (collect f.id) _ ids e in
    subst (All (Below folders folder_id)) (sym same) (
      All-append (Below folders folder_id) xs ys
        (All-map _ _ xs (λ k below. Below.in_child folder_id f.id k up.0 below) (h f.id xs a))
        (collect_each-Below folders folder_id collect rows ys h up.1 b))

pub collect_ids-Below :
    (fuel : ℕ) (folders : List Folder) (folder_id : ℕ) (ids : List ℕ)
    → IsTree folders
    → collect_ids fuel folders folder_id ≡ some ids
    → All (Below folders folder_id) ids
unfolding collect_ids
collect_ids-Below zero folders folder_id ids tree e = absurd (ground arith)
collect_ids-Below (suc fuel) folders folder_id ids tree e =
    let (rest, collected, same) = cons_id-some folder_id _ ids e in
    subst (All (Below folders folder_id)) (sym same) (
      Below.itself folder_id,
      collect_each-Below folders folder_id (collect_ids fuel folders)
          (children_of folder_id folders) rest
          (λ k found_ids t. collect_ids-Below fuel folders k found_ids tree t)
          (All-map _ _ (children_of folder_id folders)
            (λ f row. row-parent folders f folder_id tree.unique row.0 row.1)
            (children_rows folder_id folders))
          collected,
    )
