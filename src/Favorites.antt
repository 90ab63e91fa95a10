-- ===== src/Favorites.antt =====
-- backend/app/routers/favorites.py: the documents that a user has marked.
pub mod Sets
mod Tests
use local_ai_search.Prelude.{
  ℕ, Bool, true, false, not, ◌&&◌, Option, none, some, List, [], ◌∷◌, ◌++◌, map, ◌==◌, is_none,
  if◌then◌else◌, find?, select, any,
}
use local_ai_search.Models.{User, GroupMember, Document, UserFavorite, Db}
use local_ai_search.Session.{Reply, http_error, reply, ◌>>=◌, ◌>>◌, require}
use local_ai_search.Permissions.{can_access_document, build_visibility_filter, get_user_group_ids}

abbrev pub is_mark : (user_id document_id : ℕ) → UserFavorite → Bool
is_mark user_id document_id f = (f.user_id == user_id) && (f.document_id == document_id)

abbrev pub with_favorites : List UserFavorite → Db → Db
with_favorites favorites db = record db { favorites = favorites }

-- "one not readable, or in the trash, is as one not there"
abbrev readable : Option Document → User → List GroupMember → Bool
readable none user members = false
readable (some doc) user members =
    is_none doc.deleted_at && can_access_document doc user false (some members)

unfoldable pub may_mark : (document_id : ℕ) → User → Db → Bool
may_mark document_id user db =
    readable (find? (λ d. d.id == document_id) db.documents) user db.members

-- The two replies with a status are one here: the rows tell them apart.
unfoldable pub add_favorite : (document_id : ℕ) → User → Db → Reply Db
unfolding may_mark
add_favorite document_id user db =
    require (may_mark document_id user db) 404
    >> reply (
        if any (is_mark user.id document_id) db.favorites
        then db
        else with_favorites
            (db.favorites ++ record { user_id = user.id; document_id = document_id } ∷ []) db)

unfoldable pub remove_favorite : (document_id : ℕ) → User → Db → Reply Db
remove_favorite document_id user db =
    reply (with_favorites (select (λ f. not (is_mark user.id document_id f)) db.favorites) db)

-- `ORDER BY created_at DESC`, of rows that stand in the order in which they were made
abbrev pub newest_first : List UserFavorite → List UserFavorite
newest_first [] = []
newest_first (f ∷ favorites) = newest_first favorites ++ f ∷ []

-- The join with the documents, and its conditions.
unfoldable pub shown : (document_id : ℕ) → User → Db → Bool
shown document_id user db =
    any
      (λ d.
        (d.id == document_id)
        && (build_visibility_filter user (get_user_group_ids db.members user.id) d
            && is_none d.deleted_at))
      db.documents

unfoldable pub list_favorites : User → Db → List ℕ
unfolding shown
list_favorites user db =
    map (λ f. f.document_id)
      (newest_first
        (select (λ f. (f.user_id == user.id) && shown f.document_id user db) db.favorites))
