-- ===== src/Notes/Kept.antt =====
-- `_place_orders` of backend/app/routers/notes.py leaves the fixed notes their orders, and the loop behind it
-- writes only others.
use local_ai_search.Prelude.{
  ℕ, zero, suc, ℤ, pos, ◌-ℤ◌, ltb, ltb_ℤ, ◌≡◌, refl, sym, ◌∙◌, Bool, true, false, not, ◌&&◌, Option,
  none, some, List, [], ◌∷◌, ◌++◌, map, arith, ◌==◌, any, In, In-update_where, In-update_where_hit,
  All, Bool-cases, inl, inr,
}
use mathlib.Core.Path.{subst}
use mathlib.Core.Option.{some-injective, some-ne-none}
use local_ai_search.Models.{Document}
use local_ai_search.Documents.{write_document}
use local_ai_search.Notes.Orders.{
  Item, cons_order, place_after, count_down, append_orders, in_column, checked, place_from,
  place_orders,
}
use local_ai_search.Notes.Orders.Arranged.{cons_order-some}
use local_ai_search.Notes.{set_orders}

-- The fixed items have their own orders in the list.
abbrev pub Kept : List Item → List ℤ → Type 0
Kept [] out = Unit
Kept (item ∷ items) [] = Unit
Kept ((true, o) ∷ items) (x ∷ out) = Kept items out
Kept ((false, o) ∷ items) (x ∷ out) = (x ≡ o) × Kept items out

-- The same behind `k` orders of notes that may be written.
abbrev KeptFrom : ℕ → List Item → List ℤ → Type 0
KeptFrom zero items out = Kept items out
KeptFrom (suc k) items [] = Unit
KeptFrom (suc k) items (x ∷ out) = KeptFrom k items out

place_after-Kept :
    (fo : ℤ) (k : ℕ) (items : List Item) (out : List ℤ)
    → place_after fo k items ≡ some out
    → Kept items out
unfolding place_after
place_after-Kept fo k [] out e = tt
place_after-Kept fo k ((true, o) ∷ items) out e =
    let (rest, e', is_out) = cons_order-some _ (place_after fo (suc k) items) e in
    subst (Kept ((true, o) ∷ items)) (sym is_out) (place_after-Kept fo (suc k) items rest e')
place_after-Kept fo k ((false, o) ∷ items) out e =
    elim (Bool-cases (ltb 0 k && ltb_ℤ (o -ℤ fo -ℤ pos 1) (pos k))) [
      | inl t ↦ absurd (some-ne-none out (sym (rw t at e)))
      | inr t ↦
          let (rest, e', is_out) = cons_order-some o (place_after o 0 items) (rw t at e) in
          subst (Kept ((false, o) ∷ items)) (sym is_out) (refl, place_after-Kept o 0 items rest e')
    ]

checked-some : (o : Option (List ℤ)) {out : List ℤ} → checked o ≡ some out → o ≡ some out
checked-some none e = cc
checked-some (some xs) {out} e = elim (Bool-cases (any (λ x. not (in_column x)) xs)) [
  | inl t ↦ absurd (some-ne-none out (sym (rw t at e)))
  | inr t ↦ rw t at e
]

append_orders-some :
    (before : List ℤ) (o : Option (List ℤ)) {out : List ℤ}
    → append_orders before o ≡ some out
    → (rest : List ℤ) × (o ≡ some rest) × (out ≡ before ++ rest)
append_orders-some before none e = cc
append_orders-some before (some rest) {out} e =
    (rest, refl, sym (some-injective (before ++ rest) out e))

count_down-KeptFrom :
    (o : ℤ) (k : ℕ) (items : List Item) (rest : List ℤ)
    → Kept items rest
    → KeptFrom k items (count_down o k ++ rest)
unfolding count_down
count_down-KeptFrom o zero items rest h = h
count_down-KeptFrom o (suc k) items rest h = count_down-KeptFrom o k items rest h

KeptFrom-nil : (k : ℕ) (out : List ℤ) → KeptFrom k [] out
KeptFrom-nil zero out = tt
KeptFrom-nil (suc k) [] = tt
KeptFrom-nil (suc k) (x ∷ out) = KeptFrom-nil k out

KeptFrom-writable :
    (k : ℕ) (o : ℤ) (items : List Item) (out : List ℤ)
    → KeptFrom (suc k) items out
    → KeptFrom k ((true, o) ∷ items) out
KeptFrom-writable zero o items [] h = tt
KeptFrom-writable zero o items (x ∷ out) h = h
KeptFrom-writable (suc k) o items [] h = tt
KeptFrom-writable (suc k) o items (x ∷ out) h = KeptFrom-writable k o items out h

place_from-KeptFrom :
    (k : ℕ) (items : List Item) (out : List ℤ)
    → place_from k items ≡ some out
    → KeptFrom k items out
unfolding place_from
place_from-KeptFrom k [] out e = KeptFrom-nil k out
place_from-KeptFrom k ((true, o) ∷ items) out e =
    KeptFrom-writable k o items out (place_from-KeptFrom (suc k) items out e)
place_from-KeptFrom k ((false, o) ∷ items) out e =
    let (placed, e1, is_out) =
      append_orders-some (count_down o k) (cons_order o (place_after o 0 items))
        (checked-some _ e) in
    let (rest, e2, is_placed) = cons_order-some o (place_after o 0 items) e1 in
    subst (KeptFrom k ((false, o) ∷ items)) (sym is_out) (
      count_down-KeptFrom o k ((false, o) ∷ items) placed (
        subst (Kept ((false, o) ∷ items)) (sym is_placed)
          (refl, place_after-Kept o 0 items rest e2)))

pub place_orders-Kept :
    (items : List Item) (out : List ℤ) → place_orders items ≡ some out → Kept items out
unfolding place_orders
place_orders-Kept = place_from-KeptFrom 0

write_order-In :
    (sib : Document) (order : ℤ) (docs : List Document) (d : Document)
    → (sib.id ≡ d.id → order ≡ d.note_order)
    → In d docs
    → In d (write_document sib.id (λ x. record x { note_order = order }) docs)
write_order-In sib order docs d same m = elim (Bool-cases (d.id == sib.id)) [
  | inl t ↦
      let is_same = same (ground arith) in
      subst
        (λ o.
          In (record d { note_order = o })
            (write_document sib.id (λ x. record x { note_order = order }) docs))
        is_same
        (In-update_where_hit (λ x. x.id == sib.id) (λ x. record x { note_order = order }) docs t m)
  | inr t ↦ In-update_where (λ x. x.id == sib.id) (λ x. record x { note_order = order }) docs t m
]

Kept-cons :
    (b : Bool) (o : ℤ) (items : List Item) (x : ℤ) (out : List ℤ)
    → Kept ((b, o) ∷ items) (x ∷ out)
    → (b ≡ false → x ≡ o) × Kept items out
Kept-cons true o items x out k = (λ e. cc, k)
Kept-cons false o items x out k = (λ e. k.0, k.1)

pub set_orders-In :
    (may : Document → Bool) (sibs : List Document) (orders : List ℤ) (docs : List Document)
    (d : Document)
    → Kept (map (λ s. (may s, s.note_order)) sibs) orders
    → All (λ s. s.id ≡ d.id → (may s ≡ false) × (s.note_order ≡ d.note_order)) sibs
    → In d docs
    → In d (set_orders sibs orders docs)
unfolding set_orders
set_orders-In may [] orders docs d k h m = m
set_orders-In may (s ∷ sibs) [] docs d k h m = m
set_orders-In may (s ∷ sibs) (x ∷ orders) docs d k h m =
    let (head, rest) = Kept-cons (may s) s.note_order _ x orders k in
    set_orders-In may sibs orders _ d rest h.1
      (write_order-In s x docs d (λ e. let (fixed, same) = h.0 e in head fixed ∙ same) m)
