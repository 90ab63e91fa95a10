-- ===== src/Fuse/Access/Tests.antt =====
-- Access in the mounted file system (backend/app/fuse_server.py) at concrete users, groups and
-- documents.
use local_ai_search.Prelude.{
  ℕ, ◌≡◌, refl, true, false, ◌&&◌, ◌||◌, not, none, some, [], ◌∷◌, inl, inr, codes, option_eq,
  is_none, ltb, if◌then◌else◌, arith,
}
use local_ai_search.Models.{User, Group, Document, Db}
use local_ai_search.Permissions.{
  is_admin, in_group, get_user_group_ids, can_access_document, build_visibility_filter,
}
use local_ai_search.Permissions.Visibility.{group_shut_out}
use local_ai_search.Permissions.Tests.{alice, root, memo}
use local_ai_search.Fuse.Access.{
  lists, open_allowed, doc_entry, can_write_entry, load_user_info, memberships, owner_uid_of,
  group_gid_of, UserInfoCache, get_user_info,
}
use local_ai_search.Fuse.Access.Owners.{OwnUid}
use local_ai_search.Fuse.Access.Groups.{OwnGid}
use local_ai_search.Fuse.Access.Gap.{access-gap}
use local_ai_search.Fuse.Access.Staleness.{IsFresh, get_user_info-IsFresh}

abbrev alice_unix : User
alice_unix = record alice { unix_uid = some 5001 }

abbrev staff : Group
staff = record { id = 7; name = codes "staff"; description = []; unix_gid = some 6001 }

abbrev guests : Group
guests = record { id = 8; name = codes "guests"; description = []; unix_gid = none }

-- The group may only read, all others may write.
abbrev shared_memo : Document
shared_memo = record memo { group_read = true; others_write = true }

abbrev db : Db
db = record {
  users = root ∷ alice_unix ∷ [];
  groups = guests ∷ staff ∷ [];
  members = record { group_id = 7; user_id = 1 } ∷ [];
  folders = [];
  documents = shared_memo ∷ [];
  favorites = [];
  audit_logs = [];
}

alice-OwnUid : OwnUid db.users alice_unix 5001
alice-OwnUid = record {
  ids = (((λ e. omega arith), tt), (tt, tt));
  row = inr (inl refl);
  account = refl;
  real = refl;
  alone = ((λ e. cc), ((λ e. refl), tt));
}

staff-OwnGid : OwnGid db.groups staff 6001
staff-OwnGid = record {
  ids = (((λ e. omega arith), tt), (tt, tt));
  row = inr (inl refl);
  number = refl;
  alone = ((λ e. cc), ((λ e. refl), tt));
}

-- Through the file system the member writes, which the web API refuses.
written :
    (can_write_entry
        (doc_entry db shared_memo)
        5001
        (load_user_info 5001 db).0
        (load_user_info 5001 db).1
      ≡ true)
    × (can_access_document shared_memo alice_unix true (some db.members) ≡ false)
unfolding can_write_entry load_user_info owner_uid_of group_gid_of memberships can_access_document
    is_admin in_group get_user_group_ids
written = (refl, refl)

access-gap_example :
    let entry = doc_entry db shared_memo in
    let (caller_is_admin, gids) = load_user_info 5001 db in
    let listed =
      build_visibility_filter alice_unix
        (get_user_group_ids db.members alice_unix.id)
        shared_memo in
    let writable =
      can_access_document shared_memo alice_unix true (some db.members)
      || group_shut_out alice_unix db.members shared_memo.group_id shared_memo.group_write
          shared_memo.others_write in
    (lists (some 5) shared_memo entry 5001 caller_is_admin gids ≡ (
      option_eq shared_memo.folder_id (some 5)
      && is_none shared_memo.deleted_at
      && (not shared_memo.download_prohibited && listed)))
    × (can_write_entry entry 5001 caller_is_admin gids ≡ writable)
    × (open_allowed entry false 5001 caller_is_admin gids
        ≡ (not shared_memo.download_prohibited && listed))
    × (open_allowed entry true 5001 caller_is_admin gids
        ≡ ((not shared_memo.download_prohibited && listed) && writable))
access-gap_example =
    access-gap db shared_memo alice_unix 5001 staff 6001 (some 5) alice-OwnUid staff-OwnGid refl

-- The accounts are there from 40 seconds on.
abbrev history : ℕ → Db
history at = if ltb at 40_000_000 then record db { users = [] } else db

-- Asked for at 39 seconds.
abbrev cached : UserInfoCache
cached = (get_user_info 39_000_000 5001 (history 39_000_000) (λ uid. none)).1

get_user_info-IsFresh_example :
    IsFresh history 50_000_000 5001 (get_user_info 50_000_000 5001 (history 50_000_000) cached)
get_user_info-IsFresh_example =
    get_user_info-IsFresh history 39_000_000 50_000_000 5001 cached
      (get_user_info-IsFresh history 0 39_000_000 5001 (λ uid. none) (λ uid. tt) (omega arith)).1
      (omega arith)
