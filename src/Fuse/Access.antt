-- ===== src/Fuse/Access.antt =====
-- Who sees and writes what in the mounted file system (backend/app/fuse_server.py): `_can_see_entry`,
-- `_can_write_entry`, `_can_write_folder_sync` and `_get_user_info_sync`, with the entries that
-- `_load_folder_children_sync` makes of the rows.
pub mod Owners
pub mod Groups
pub mod Gap
pub mod Staleness
mod Tests
use local_ai_search.Prelude.{
  ℕ, ◌-◌, Bool, true, false, not, ◌&&◌, ◌||◌, Option, none, some, List, [], ◌∷◌, map, ltb, ◌==◌,
  some_eq, if◌then◌else◌, find?, select, contains, option_eq, is_none,
}
use local_ai_search.Models.{User, Group, GroupMember, Folder, Document, Db}
use local_ai_search.Permissions.{is_admin, get_user_group_ids}
use local_ai_search.Folders.{folder_of}

-- The part of an entry on access.
pub record CachedEntry : Type 0 where
  pub is_dir : Bool
  pub owner_uid : ℕ
  pub group_gid : ℕ
  pub group_read : Bool
  pub group_write : Bool
  pub others_read : Bool
  pub others_write : Bool
  pub download_prohibited : Bool

-- 0 where there is no id
abbrev pub or_zero : Option ℕ → ℕ
or_zero none = 0
or_zero (some n) = n

-- `u = db.get(User, owner_id)`, and its uid if it has one
unfoldable pub owner_uid_of : List User → (owner_id : Option ℕ) → ℕ
owner_uid_of users none = 0
owner_uid_of users (some owner_id) = elim (find? (λ u. u.id == owner_id) users) [
  | none ↦ 0
  | some u ↦ or_zero u.unix_uid
]

unfoldable pub group_gid_of : List Group → (group_id : Option ℕ) → ℕ
group_gid_of groups none = 0
group_gid_of groups (some group_id) = elim (find? (λ g. g.id == group_id) groups) [
  | none ↦ 0
  | some g ↦ or_zero g.unix_gid
]

abbrev pub folder_entry : Db → Folder → CachedEntry
folder_entry db f = record {
  is_dir = true;
  owner_uid = owner_uid_of db.users f.owner_id;
  group_gid = group_gid_of db.groups f.group_id;
  group_read = f.group_read;
  group_write = f.group_write;
  others_read = f.others_read;
  others_write = f.others_write;
  download_prohibited = false;
}

abbrev pub doc_entry : Db → Document → CachedEntry
doc_entry db doc = record {
  is_dir = false;
  owner_uid = owner_uid_of db.users doc.owner_id;
  group_gid = group_gid_of db.groups doc.group_id;
  group_read = doc.group_read;
  group_write = doc.group_write;
  others_read = doc.others_read;
  others_write = doc.others_write;
  download_prohibited = doc.download_prohibited;
}

unfoldable pub can_write_entry :
    CachedEntry → (caller_uid : ℕ) (caller_is_admin : Bool) (caller_gids : List ℕ) → Bool
can_write_entry entry caller_uid caller_is_admin caller_gids =
    if caller_is_admin
    then true
    else if entry.owner_uid == caller_uid
    then true
    else if entry.group_write && contains caller_gids entry.group_gid
    then true
    else if entry.others_write
    then true
    else false

unfoldable pub can_see_entry :
    CachedEntry → (caller_uid : ℕ) (caller_is_admin : Bool) (caller_gids : List ℕ) → Bool
can_see_entry entry caller_uid caller_is_admin caller_gids =
    if not entry.is_dir && entry.download_prohibited
    then false
    else if caller_is_admin
    then true
    else if entry.owner_uid == caller_uid
    then true
    else if entry.group_read && contains caller_gids entry.group_gid
    then true
    else if entry.others_read
    then true
    else false

-- The WHERE clause of the documents of a folder.
unfoldable pub in_directory : (folder_id : Option ℕ) → Document → Bool
in_directory folder_id doc = option_eq doc.folder_id folder_id && is_none doc.deleted_at

-- Whether `readdir` goes past its test of access with the entry of a document's row, where the query of
-- the directory gives the row.
unfoldable pub lists :
    (folder_id : Option ℕ)
    → Document
    → CachedEntry
    → (caller_uid : ℕ) (caller_is_admin : Bool) (caller_gids : List ℕ) → Bool
unfolding in_directory can_see_entry
lists folder_id doc entry caller_uid caller_is_admin caller_gids =
    in_directory folder_id doc && can_see_entry entry caller_uid caller_is_admin caller_gids

-- Whether `open` goes past its two tests of access with the entry; `writes` is `O_WRONLY` or `O_RDWR`.
unfoldable pub open_allowed :
    CachedEntry
    → (writes : Bool) → (caller_uid : ℕ) (caller_is_admin : Bool) (caller_gids : List ℕ) → Bool
unfolding can_see_entry can_write_entry
open_allowed entry writes caller_uid caller_is_admin caller_gids =
    if not (can_see_entry entry caller_uid caller_is_admin caller_gids)
    then false
    else if writes
    then can_write_entry entry caller_uid caller_is_admin caller_gids
    else true

-- `{gid for gid in memberships if gid is not None}`
unfoldable pub present : List (Option ℕ) → List ℕ
present [] = []
present (none ∷ gids) = present gids
present (some gid ∷ gids) = gid ∷ present gids

-- The gids of the groups that the user is a member of.
unfoldable pub memberships : List Group → List GroupMember → (user_id : ℕ) → List ℕ
unfolding present
memberships groups members user_id = present (
    map (λ g. g.unix_gid) (select (λ g. contains (get_user_group_ids members user_id) g.id) groups))

-- `_user_info_cache`
abbrev pub UserInfoCache : Type 0
UserInfoCache = ℕ → Option ((Bool × List ℕ) × ℕ)

-- 30.0 seconds; the clock counts microseconds
abbrev pub user_info_ttl : ℕ
user_info_ttl = 30_000_000

unfoldable pub load_user_info : (unix_uid : ℕ) → Db → Bool × List ℕ
unfolding memberships
load_user_info unix_uid db = elim (find? (λ u. some_eq u.unix_uid unix_uid) db.users) [
  | none ↦ (false, [])
  | some user ↦ (is_admin user, memberships db.groups db.members user.id)
]

abbrev pub stored : (now unix_uid : ℕ) → Bool × List ℕ → UserInfoCache → UserInfoCache
stored now unix_uid info cache uid = if uid == unix_uid then some (info, now) else cache uid

abbrev pub fresh_info :
    (now unix_uid : ℕ)
    → Option ((Bool × List ℕ) × ℕ)
    → Db
    → UserInfoCache
    → (Bool × List ℕ) × UserInfoCache
fresh_info now unix_uid none db cache =
    let info = load_user_info unix_uid db in (info, stored now unix_uid info cache)
fresh_info now unix_uid (some (info, at)) db cache =
    let loaded = load_user_info unix_uid db in
    if ltb (now - at) user_info_ttl
    then (info, cache)
    else (loaded, stored now unix_uid loaded cache)

-- What is known of the caller, and the cache.
unfoldable pub get_user_info :
    (now unix_uid : ℕ) → Db → UserInfoCache → (Bool × List ℕ) × UserInfoCache
unfolding load_user_info
get_user_info now unix_uid db cache = fresh_info now unix_uid (cache unix_uid) db cache

abbrev write_folder : Option Folder → (caller_uid : ℕ) → (gids : List ℕ) → Db → Bool
write_folder none caller_uid gids db = true
write_folder (some folder) caller_uid gids db =
    if owner_uid_of db.users folder.owner_id == caller_uid
    then true
    else if folder.group_write && contains gids (group_gid_of db.groups folder.group_id)
    then true
    else folder.others_write

abbrev write_in : Option ℕ → (caller_uid : ℕ) → (gids : List ℕ) → Db → Bool
write_in none caller_uid gids db = true
write_in (some folder_id) caller_uid gids db =
    write_folder (folder_of folder_id db.folders) caller_uid gids db

-- On what is known of the caller. "Root folder: allow all authenticated users".
unfoldable pub can_write_folder :
    (folder_id : Option ℕ) (caller_uid : ℕ) → (caller : Bool × List ℕ) → Db → Bool
unfolding owner_uid_of group_gid_of
can_write_folder folder_id caller_uid (caller_is_admin, gids) db =
    if caller_is_admin then true else write_in folder_id caller_uid gids db
