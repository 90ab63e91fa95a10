-- ===== src/Lib.antt =====
-- A model of the server of Local AI Search (backend/app): its documents, notes, job queue, folders, groups, tokens, permissions,
-- document versions, text chunking, context compaction, and the tables of its file server.
--
-- How the parts work together: a request comes with a token or an API key (Auth), from which
-- `get_current_user` finds the user; the endpoints ask Permissions what the user may read and write, and run in
-- a transaction (Session). Uploaded and edited documents are versioned (Versioning, with Filename) and put in
-- the queue (Jobs); a worker parses and chunks them (Chunking). The agent compacts its conversation
-- (Compaction) and filters what it streams (Agent). The file server answers from a cache and numbers what it shows (Fuse).
--
-- Files and the code they model; a definition has the name of its function or class, without a leading
-- underscore, and a table of the database is a list of rows:
--   Prelude and below: names of the libraries, Booleans, lists, predicates on them, tables with a key, and Python's
--     texts as code points with the methods that the server uses.
--   Models: the rows of backend/app/models.py, with the columns in use.
--   Session: the reply of a handler (HTTPException is a status) and get_db of backend/app/db.py.
--   Auth: backend/app/services/auth.py (verify_token, the payloads of new tokens), backend/app/deps.py
--     (get_current_user, _try_api_key_auth), backend/app/routers/auth.py (_revoke, logout, refresh). Auth/Login: login and
--     authenticate_user. Auth/Blacklist, Auth/Revocation, Auth/Keys: proofs.
--   Permissions: backend/app/services/permissions.py. Permissions/Visibility, Permissions/Format: proofs.
--   Folders: backend/app/routers/folders.py: create_folder and _check_no_cycle; Folders/Update: update_folder with the
--     permissions that go down; Folders/Delete: delete_folder. Folders/Cycles, Tree, Moves, Placement, Endpoint, Inherit,
--     Trash, Collection, Removal, Creation: proofs.
--   Groups: backend/app/routers/groups.py. Groups/Members, Groups/Removal: proofs.
--   Documents: backend/app/routers/documents.py: delete_document, set_document_permissions, reindex_document and
--     restore_document_version; Documents/Trash: the trash; Documents/Bulk: bulk_action; Documents/Edit: update_document.
--     Documents/Access and the modules below Trash, Bulk and Edit: proofs.
--   Notes: backend/app/routers/notes.py: move_note, remove_note, delete_note_with_file; Notes/Orders: _place_orders.
--     Notes/Orders/Arranged, Notes/Orders/Placed, Notes/Kept, Notes/Siblings, Notes/Untouched: proofs.
--   Share: backend/app/routers/share.py, with get_setting of backend/app/services/settings.py. Share/Links: proofs.
--   Favorites: backend/app/routers/favorites.py. Favorites/Sets: proofs.
--   Agent/Stream and Agent/Pieces: _stream_filtered, _truncate_repetition and _chunk_text_for_streaming of
--     backend/app/services/ai_agent.py. Agent/Stream/Index: str.find; Agent/Stream/Clean, Agent/Stream/Plain,
--     Agent/Pieces/Repeats: proofs.
--   Jobs: backend/app/services/job_queue.py, with recover_stale_jobs and the loop of backend/app/worker.py.
--     Jobs/Claim, Invariant, Retry, Recovery: proofs.
--   Versioning: backend/app/services/versioning.py. Versioning/History, Versioning/Restore: proofs.
--   Filename: backend/app/utils/filename.py.
--   Chunking: chunk_text of backend/app/services/parser.py. Chunking/Windows, Chunking/Bounds: proofs.
--   Compaction: backend/app/services/compaction.py, whose _build_summary is in Compaction/Summary. Compaction/Rounds: proofs.
--   Fuse/Cache and Fuse/Inodes: MetadataCache and the inode table of backend/app/fuse_server.py. Fuse/Cache/Laws,
--     Fuse/Cache/Size, Fuse/Inodes/Table: proofs. Fuse/Access: the entries of _load_folder_children_sync,
--     _can_see_entry, _can_write_entry, _get_user_info_sync and _can_write_folder_sync of the same file, and the
--     tests of access in readdir and open.
--     Fuse/Access/Owners, Fuse/Access/Groups, Fuse/Access/Gap, Fuse/Access/Staleness: proofs.
--   The Tests modules run the definitions at concrete inputs.
--
-- Conventions: UUIDs and keys are numbers, times are microseconds, a NULL is `none`. The result of a SELECT
-- with a condition is the list of the rows that pass its test; FOR UPDATE SKIP LOCKED takes the locked rows as an
-- argument. Fresh identifiers and the clock are arguments.
--
-- Bounds and fuel: chunk_text has the length of the text and one as fuel, for each round moves its start on.
-- _check_no_cycle has the number of folders and two, for each round but two finds a folder not
-- visited before. The calls that go down the folders have the number of folders and one, which is above the
-- depth of every tree. The filter of the stream has the length of its buffer and one, for each round but the last
-- drops a tag. The walk of move_note up the notes has their number and one, and may run out where the parents make
-- a loop, which the code would not leave either. That each is enough is proved, in the theorem on the
-- result or in one of its own, but for move_note. Numbers of Python do not wrap.
--
-- Parameters, for code that is not in the repository: the JWT, bcrypt, UUID and hash libraries, Redis (with
-- the two laws of its keys in Auth.Redis), the handlers of jobs, the share server, the storage root, the database's order of titles, and the digits and
-- letters of the regular expressions.
--
-- Not modelled: the readers and listings but that of favorites, whose SQL
-- only selects; the creation of documents and notes, search, the
-- tools of the agent, ingest, users and roles, notifications; the parsers of
-- file formats, previews and the antivirus, which call other programs; create_folders_bulk; the operations of the mounted file system; the clients.
pub mod Prelude
pub mod Models
pub mod Session
pub mod Permissions
pub mod Jobs
pub mod Chunking
pub mod Compaction
pub mod Fuse
pub mod Filename
pub mod Versioning
pub mod Folders
pub mod Auth
pub mod Groups
pub mod Documents
pub mod Notes
pub mod Agent
pub mod Share
pub mod Favorites
