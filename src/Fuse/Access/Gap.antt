-- ===== src/Fuse/Access/Gap.antt =====
-- What the mounted file system (backend/app/fuse_server.py) lets a user see and write, against the
-- web API's permissions (backend/app/services/permissions.py).
use local_ai_search.Prelude.{
  ℕ, ◌≡◌, refl, sym, ap, ◌∙◌, Option, Bool, option_eq, is_none, if◌then◌else◌, true, false, not,
  ◌&&◌, ◌||◌, some, arith, some_eq, contains, ◌==◌,
}
use local_ai_search.Models.{User, Group, Document, Db}
use local_ai_search.Permissions.{
  is_admin, get_user_group_ids, in_group, can_access_document, build_visibility_filter,
}
use local_ai_search.Permissions.Visibility.{group_shut_out, document_filter}
use local_ai_search.Fuse.Access.{
  lists, in_directory, open_allowed, doc_entry, can_write_entry, can_see_entry, load_user_info,
  memberships, owner_uid_of, group_gid_of,
}
use local_ai_search.Fuse.Access.Owners.{OwnUid, owner_uid_of-eq, user_of_uid}
use local_ai_search.Fuse.Access.Groups.{OwnGid, memberships-in_group}

load_user_info-found :
    (db : Db) (user : User) (uid : ℕ)
    → OwnUid db.users user uid
    → load_user_info uid db ≡ (is_admin user, memberships db.groups db.members user.id)
unfolding load_user_info
load_user_info-found db user uid own = rw (load_user_info, user_of_uid db.users user uid own)

-- On the two comparisons that the web API makes with ids.
module _ (db : Db) (doc : Document) (user : User) (uid : ℕ)
    (owned : (owner_uid_of db.users doc.owner_id == uid) ≡ some_eq doc.owner_id user.id)
    (member : contains
        (memberships db.groups db.members user.id)
        (group_gid_of db.groups doc.group_id)
      ≡ in_group doc.group_id user (some db.members)) where
  write_gap :
      can_write_entry
        (doc_entry db doc)
        uid
        (is_admin user)
        (memberships db.groups db.members user.id)
      ≡ (can_access_document doc user true (some db.members)
          || group_shut_out user db.members doc.group_id doc.group_write doc.others_write)
  unfolding can_write_entry can_access_document
  write_gap = rw (owned, member) (ground arith)

  see_gap :
      can_see_entry
        (doc_entry db doc)
        uid
        (is_admin user)
        (memberships db.groups db.members user.id)
      ≡ (not doc.download_prohibited
          && (can_access_document doc user false (some db.members)
              || group_shut_out user db.members doc.group_id doc.group_read doc.others_read))
  unfolding can_see_entry can_access_document
  see_gap = rw (owned, member) (ground arith)

opens_read : (sees : Bool) → (if not sees then false else true) ≡ sees
opens_read true = refl
opens_read false = refl

opens_write : (sees writes : Bool) → (if not sees then false else writes) ≡ (sees && writes)
opens_write true writes = refl
opens_write false writes = refl

-- For a user with a uid of the user's own, and a document whose group has a gid of its own, by the entry of
-- the document's row: the test of `readdir` lets the document through exactly if it is in the directory's
-- folder and not in the trash, its download is not prohibited, and the web API's SQL filter lists it. The
-- tests of `open` let the user read it exactly if its download is not prohibited and that filter lists it. For
-- writing, `open` asks in addition what `_can_write_entry` asks, which is what the web API asks of a
-- write, except that it also lets the user write a document of a group that the user, neither an administrator
-- nor the owner, belongs to, when the group may not write and all others may.
pub access-gap :
    (db : Db) (doc : Document) (user : User) (uid : ℕ) (group : Group) (gid : ℕ)
    (folder_id : Option ℕ)
    → OwnUid db.users user uid
    → OwnGid db.groups group gid
    → doc.group_id ≡ some group.id
    → let entry = doc_entry db doc in
      let (caller_is_admin, gids) = load_user_info uid db in
      let listed = build_visibility_filter user (get_user_group_ids db.members user.id) doc in
      let writable =
        can_access_document doc user true (some db.members)
        || group_shut_out user db.members doc.group_id doc.group_write doc.others_write in
      (lists folder_id doc entry uid caller_is_admin gids ≡ (
        option_eq doc.folder_id folder_id
        && is_none doc.deleted_at
        && (not doc.download_prohibited && listed)))
      × (can_write_entry entry uid caller_is_admin gids ≡ writable)
      × (open_allowed entry false uid caller_is_admin gids
          ≡ (not doc.download_prohibited && listed))
      × (open_allowed entry true uid caller_is_admin gids
          ≡ ((not doc.download_prohibited && listed) && writable))
unfolding lists in_directory open_allowed
access-gap db doc user uid group gid folder_id own number grouped =
    let owned = owner_uid_of-eq db.users doc.owner_id user uid own in
    let member : contains (memberships db.groups db.members user.id)
          (group_gid_of db.groups doc.group_id)
        ≡ in_group doc.group_id user (some db.members) =
      rw grouped (memberships-in_group db.groups db.members user group gid number) in
    let gids = memberships db.groups db.members user.id in
    let sees = can_see_entry (doc_entry db doc) uid (is_admin user) gids in
    let writes = can_write_entry (doc_entry db doc) uid (is_admin user) gids in
    let listed : Bool =
      not doc.download_prohibited
      && build_visibility_filter user (get_user_group_ids db.members user.id) doc in
    let written = write_gap db doc user uid owned member in
    let seen : sees ≡ listed =
      see_gap db doc user uid owned member
      ∙ ap (λ b. not doc.download_prohibited && b) (sym (document_filter user db.members doc)) in
    rw (load_user_info-found db user uid own) (
      ap (λ b. option_eq doc.folder_id folder_id && is_none doc.deleted_at && b) seen,
      written,
      opens_read sees ∙ seen,
      ap (λ s. if not s then false else writes) seen
          ∙ (opens_write listed writes ∙ ap (λ w. listed && w) written),
    )
