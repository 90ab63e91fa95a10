-- ===== src/Favorites/Sets.antt =====
-- backend/app/routers/favorites.py against a set of marked documents for each user.
use local_ai_search.Prelude.{
  ℕ, ◌≡◌, refl, ap, ◌∙◌, Bool, true, not, ◌&&◌, ◌||◌, List, [], ◌∷◌, ◌++◌, map, arith, ◌==◌, ==_iff,
  if◌then◌else◌, Bool-cases, inl, inr, select, any, contains,
}
use local_ai_search.Models.{User, UserFavorite, Db}
use local_ai_search.Session.{Reply, http_error, reply, require, ◌>>◌}
use local_ai_search.Favorites.{
  is_mark, with_favorites, may_mark, add_favorite, remove_favorite, newest_first, shown,
  list_favorites,
}

pub data Request : Type 0 where
  add : (document_id : ℕ) → (user : User) → Request
  remove : (document_id : ℕ) → (user : User) → Request

abbrev committed : Db → Reply Db → Db
committed before (http_error status) = before
committed before (reply after) = after

-- A request that is refused leaves the rows.
unfoldable pub handle : Request → Db → Db
unfolding add_favorite remove_favorite
handle (add document_id user) db = committed db (add_favorite document_id user db)
handle (remove document_id user) db = committed db (remove_favorite document_id user db)

unfoldable pub handle_all : List Request → Db → Db
unfolding handle
handle_all [] db = db
handle_all (request ∷ requests) db = handle_all requests (handle request db)

-- Whether a user has marked a document, by the requests alone: `db` says which marks are allowed.
abbrev pub marked_after : List Request → Db → (before : Bool) → (user_id document_id : ℕ) → Bool
marked_after [] db before u d = before
marked_after (add document_id user ∷ requests) db before u d =
    marked_after requests db
      (before || may_mark document_id user db && ((user.id == u) && (document_id == d))) u d
marked_after (remove document_id user ∷ requests) db before u d =
    marked_after requests db (before && not ((user.id == u) && (document_id == d))) u d

abbrev pub marked : (user_id document_id : ℕ) → List UserFavorite → Bool
marked u d = any (is_mark u d)

marked-append :
    (u d : ℕ) (fs : List UserFavorite) (f : UserFavorite)
    → marked u d (fs ++ f ∷ []) ≡ (marked u d fs || is_mark u d f)
marked-append u d [] f = ground arith
marked-append u d (g ∷ fs) f = ground (arith, marked-append u d fs f)

marked-without :
    (u d user_id document_id : ℕ) (fs : List UserFavorite)
    → marked u d (select (λ f. not (is_mark user_id document_id f)) fs)
      ≡ (marked u d fs && not ((user_id == u) && (document_id == d)))
marked-without u d user_id document_id [] = refl
marked-without u d user_id document_id (f ∷ fs) =
    ground (arith, marked-without u d user_id document_id fs)

-- The rows after one request.
abbrev rows_after : Request → Db → List UserFavorite → List UserFavorite
rows_after (add document_id user) db fs =
    if may_mark document_id user db
    then (if marked user.id document_id fs
        then fs
        else fs ++ record { user_id = user.id; document_id = document_id } ∷ [])
    else fs
rows_after (remove document_id user) db fs = select (λ f. not (is_mark user.id document_id f)) fs

add_favorite-rows :
    (document_id : ℕ) (user : User) (db : Db) (fs : List UserFavorite)
    → add_favorite document_id user (with_favorites fs db) ≡ (
        require (may_mark document_id user db) 404
        >> reply (
            if marked user.id document_id fs
            then with_favorites fs db
            else with_favorites
                (fs ++ record { user_id = user.id; document_id = document_id } ∷ [])
                db))
unfolding add_favorite may_mark
add_favorite-rows document_id user db fs = refl

handle-rows_after :
    (request : Request) (db : Db) (fs : List UserFavorite)
    → handle request (with_favorites fs db) ≡ with_favorites (rows_after request db fs) db
unfolding handle remove_favorite
handle-rows_after (add document_id user) db fs =
    rw (add_favorite-rows document_id user db fs)
      (elim (Bool-cases (may_mark document_id user db)) [
        | inl e ↦ elim (Bool-cases (marked user.id document_id fs)) [
          | inl e' ↦ rw (e, e')
          | inr e' ↦ rw (e, e')
        ]
        | inr e ↦ rw e
      ])
handle-rows_after (remove document_id user) db fs = refl

abbrev all_rows : List Request → Db → List UserFavorite → List UserFavorite
all_rows [] db fs = fs
all_rows (request ∷ requests) db fs = all_rows requests db (rows_after request db fs)

handle_all-all_rows :
    (requests : List Request) (db : Db) (fs : List UserFavorite)
    → handle_all requests (with_favorites fs db) ≡ with_favorites (all_rows requests db fs) db
unfolding handle_all
handle_all-all_rows [] db fs = refl
handle_all-all_rows (request ∷ requests) db fs =
    ap (handle_all requests) (handle-rows_after request db fs)
    ∙ handle_all-all_rows requests db (rows_after request db fs)

-- A mark that is there already is not made again.
add_again :
    (u d user_id document_id : ℕ) (fs : List UserFavorite)
    → marked user_id document_id fs ≡ true
    → marked u d fs ≡ (marked u d fs || ((user_id == u) && (document_id == d)))
add_again u d user_id document_id fs h = elim (Bool-cases ((user_id == u) && (document_id == d))) [
  | inl e ↦
      let a : user_id ≡ u = ground arith in
      let b : document_id ≡ d = ground arith in
      let m : marked u d fs ≡ true = rw (a, b) at h in ground arith
  | inr e ↦ ground arith
]

rows_after-marked :
    (request : Request) (db : Db) (fs : List UserFavorite) (u d : ℕ)
    → marked u d (rows_after request db fs) ≡ marked_after (request ∷ []) db (marked u d fs) u d
rows_after-marked (add document_id user) db fs u d =
    elim (Bool-cases (may_mark document_id user db)) [
      | inl e ↦ elim (Bool-cases (marked user.id document_id fs)) [
        | inl e' ↦ rw (e, e') (add_again u d user.id document_id fs e')
        | inr e' ↦
            rw (e, e')
              (marked-append u d fs (record { user_id = user.id; document_id = document_id }))
      ]
      | inr e ↦ rw e (ground arith)
    ]
rows_after-marked (remove document_id user) db fs u d = marked-without u d user.id document_id fs

all_rows-marked :
    (requests : List Request) (db : Db) (fs : List UserFavorite) (u d : ℕ)
    → marked u d (all_rows requests db fs) ≡ marked_after requests db (marked u d fs) u d
all_rows-marked [] db fs u d = refl
all_rows-marked (add document_id user ∷ requests) db fs u d =
    all_rows-marked requests db (rows_after (add document_id user) db fs) u d
    ∙ ap (λ b. marked_after requests db b u d) (rows_after-marked (add document_id user) db fs u d)
all_rows-marked (remove document_id user ∷ requests) db fs u d =
    all_rows-marked requests db (rows_after (remove document_id user) db fs) u d
    ∙ ap (λ b. marked_after requests db b u d)
        (rows_after-marked (remove document_id user) db fs u d)

contains-last :
    (fs : List UserFavorite) (f : UserFavorite) (d : ℕ)
    → contains (map (λ g. g.document_id) (fs ++ f ∷ [])) d
      ≡ (contains (map (λ g. g.document_id) fs) d || (f.document_id == d))
contains-last [] f d = ground arith
contains-last (g ∷ fs) f d = ground (arith, contains-last fs f d)

listed :
    (ok : ℕ → Bool) (u d : ℕ) (fs : List UserFavorite)
    → contains
        (map
          (λ g. g.document_id)
          (newest_first (select (λ f. (f.user_id == u) && ok f.document_id) fs)))
        d
      ≡ (marked u d fs && ok d)
listed ok u d [] = refl
listed ok u d (f ∷ fs) =
    let rest = listed ok u d fs in
    let agree : (f.document_id == d) ≡ true → ok f.document_id ≡ ok d =
      λ e. ap ok ((==_iff f.document_id d).0 e) in
    elim (Bool-cases ((f.user_id == u) && ok f.document_id)) [
      | inl e ↦ rw e (
          contains-last (newest_first (select (λ f. (f.user_id == u) && ok f.document_id) fs)) f d
          ∙ (rw rest (elim (Bool-cases (f.document_id == d)) [
            | inl t ↦ let same = agree t in ground arith
            | inr t ↦ ground arith
          ])))
      | inr e ↦
          rw (e, rest)
            (elim (Bool-cases (f.document_id == d)) [
              | inl t ↦ let same = agree t in ground arith
              | inr t ↦ ground arith
            ])
    ]

list_favorites-listed :
    (user : User) (db : Db) (d : ℕ)
    → contains (list_favorites user db) d ≡ (marked user.id d db.favorites && shown d user db)
unfolding list_favorites
list_favorites-listed user db d = listed (λ k. shown k user db) user.id d db.favorites

shown-with_favorites :
    (d : ℕ) (user : User) (fs : List UserFavorite) (db : Db)
    → shown d user (with_favorites fs db) ≡ shown d user db
unfolding shown
shown-with_favorites d user fs db = refl

-- After any requests of any users, a user's list holds a document exactly if the user has marked it by then, and the
-- SQL filter of documents shows it to the user and it is not in the trash. A request marks or unmarks one document
-- for the user who makes it, and for no other; it marks only what the user may read, and what was marked before the
-- requests counts as it did.
pub list_favorites-marked_after :
    (requests : List Request) (db : Db) (user : User) (document_id : ℕ)
    → contains (list_favorites user (handle_all requests db)) document_id ≡ (
        marked_after requests db (marked user.id document_id db.favorites) user.id document_id
        && shown document_id user db)
list_favorites-marked_after requests db user document_id =
    list_favorites-listed user (handle_all requests db) document_id
    ∙ rw (
      handle_all-all_rows requests db db.favorites,
      shown-with_favorites document_id user (all_rows requests db db.favorites) db,
      all_rows-marked requests db db.favorites user.id document_id,
    )
