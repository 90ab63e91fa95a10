-- ===== src/Favorites/Tests.antt =====
-- The favorites of backend/app/routers/favorites.py at concrete users and documents.
use local_ai_search.Prelude.{◌≡◌, refl, ◌&&◌, some, List, [], ◌∷◌, contains}
use local_ai_search.Models.{User, Document, Db}
use local_ai_search.Permissions.{
  is_admin, in_group, get_user_group_ids, can_access_document, build_visibility_filter,
}
use local_ai_search.Permissions.Tests.{alice, memo}
use local_ai_search.Favorites.{may_mark, shown, list_favorites}
use local_ai_search.Favorites.Sets.{
  Request, add, remove, handle_all, marked_after, marked, list_favorites-marked_after,
}

abbrev bob : User
bob = record alice { id = 4 }

abbrev trashed : Document
trashed = record memo { id = 5; deleted_at = some 9 }

abbrev db : Db
db = record {
  users = alice ∷ bob ∷ [];
  groups = [];
  members = [];
  folders = [];
  documents = memo ∷ record memo { id = 4 } ∷ trashed ∷ [];
  favorites = record { user_id = 1; document_id = 5 } ∷ [];
  audit_logs = [];
}

-- A document in the trash and one that is not there are refused.
abbrev requests : List Request
requests =
    add 3 alice
    ∷ add 4 alice
    ∷ add 3 bob
    ∷ add 3 alice
    ∷ add 6 alice
    ∷ add 5 bob
    ∷ remove 3 bob
    ∷ []

newest : list_favorites alice (handle_all requests db) ≡ 4 ∷ 3 ∷ []
unfolding list_favorites handle_all may_mark can_access_document build_visibility_filter is_admin
    in_group get_user_group_ids
newest = refl

unmarked : list_favorites bob (handle_all requests db) ≡ []
unfolding list_favorites handle_all may_mark can_access_document build_visibility_filter is_admin
    in_group get_user_group_ids
unmarked = refl

list_favorites-marked_after_example :
    contains (list_favorites alice (handle_all requests db)) 3
    ≡ (marked_after requests db (marked 1 3 db.favorites) 1 3 && shown 3 alice db)
list_favorites-marked_after_example = list_favorites-marked_after requests db alice 3
