-- ===== src/Folders/Creation.antt =====
-- What `create_folder` of backend/app/routers/folders.py takes from the parent.
use mathlib.Core.Path.{subst}
use local_ai_search.Prelude.{ℕ, ◌≡◌, refl, sym, true, not, some, [], ◌∷◌, ◌++◌}
use local_ai_search.Models.{User, Folder, Db}
use local_ai_search.Session.{reply, answered, found_row, required, reply-injective}
use local_ai_search.Permissions.{inherited_folder_perms, can_access_folder}
use local_ai_search.Folders.{
  folder_of, name_taken, FolderCreate, parent_for, with_perms, new_folder, create_folder,
}

-- A folder that is created under a parent needs that the user may write in the parent; it is one more row,
-- with that parent, the user as owner, and the parent's group and permission bits.
pub create_folder-inherits :
    (id : ℕ) (body : FolderCreate) (user : User) (db db' : Db) (folder : Folder) (parent_id : ℕ)
    → body.parent_id ≡ some parent_id
    → create_folder id body user db ≡ reply (folder, db')
    → (parent : Folder) × (folder_of parent_id db.folders ≡ some parent)
      × (can_access_folder parent user true (some db.members) ≡ true)
      × (inherited_folder_perms (some folder) ≡ inherited_folder_perms (some parent))
      × (folder.owner_id ≡ some user.id)
      × (folder.parent_id ≡ some parent_id)
      × (db'.folders ≡ db.folders ++ folder ∷ [])
unfolding create_folder inherited_folder_perms
create_folder-inherits id body user db db' folder parent_id asked e =
    let (above, e1, e2) = answered (parent_for body.parent_id user db) _ e in
    let (parent, row, e3) = found_row (folder_of parent_id db.folders) 404 _ (rw asked at e1) in
    let (allowed, e4) = required (can_access_folder parent user true (some db.members)) 403 _ e3 in
    let same : some parent ≡ above = reply-injective (some parent) above e4 in
    let made : Folder =
      with_perms (inherited_folder_perms (some parent))
        (new_folder id body.name (some parent_id) (some user.id)) in
    let (free, e5) =
      required (not (name_taken made db.folders)) 500 _ (rw (sym same) at (rw asked at e2)) in
    let pair =
      reply-injective (made, record db { folders = db.folders ++ made ∷ [] }) (folder, db') e5 in
    subst
      (λ (p : Folder × Db).
        (parent : Folder) × (folder_of parent_id db.folders ≡ some parent)
        × (can_access_folder parent user true (some db.members) ≡ true)
        × (inherited_folder_perms (some p.0) ≡ inherited_folder_perms (some parent))
        × (p.0.owner_id ≡ some user.id)
        × (p.0.parent_id ≡ some parent_id)
        × (p.1.folders ≡ db.folders ++ p.0 ∷ []))
      pair (parent, row, allowed, refl, refl, refl, refl)
