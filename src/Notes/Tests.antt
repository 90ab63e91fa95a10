-- ===== src/Notes/Tests.antt =====
-- Notes that are put in order, moved and removed (backend/app/routers/notes.py).
use local_ai_search.Prelude.{
  ◌≡◌, refl, ℤ, pos, negsuc, ◌+ℤ◌, ◌-ℤ◌, true, false, none, some, List, [], ◌∷◌, codes, arith, All,
  inl, inr, UniqueBy,
}
use local_ai_search.Models.{User, Document}
use local_ai_search.Session.{http_error}
use local_ai_search.Permissions.{can_access_document, is_admin, in_group}
use local_ai_search.Documents.{Tables, may_write, any_document}
use local_ai_search.Notes.{
  NoteMove, remove_note, delete_note_with_file, move_note, is_above, readable_parent,
}
use local_ai_search.Notes.Orders.{place_orders}
use local_ai_search.Notes.Orders.Arranged.{Growing, Fits}
use local_ai_search.Notes.Orders.Placed.{under, place_orders-arranges}
use local_ai_search.Notes.Untouched.{Leaves, LeavesIfEnds, notes-untouched}

-- A fixed note between others, no room between two fixed ones, and a fixed note at the column's end.
placed :
    (place_orders ((true, pos 9) ∷ (false, pos 0) ∷ (true, pos 3) ∷ [])
      ≡ some (negsuc 0 ∷ pos 0 ∷ pos 1 ∷ []))
    × (place_orders ((false, pos 0) ∷ (true, pos 5) ∷ (false, pos 1) ∷ []) ≡ none)
    × (place_orders ((false, pos 2147483647) ∷ (true, pos 0) ∷ []) ≡ none)
unfolding place_orders ◌+ℤ◌ ◌-ℤ◌
placed = (refl, refl, refl)

place_orders-arranges_example :
    (out : List ℤ) × (place_orders ((true, pos 9) ∷ (false, pos 0) ∷ (true, pos 3) ∷ []) ≡ some out)
    × Growing under ((true, pos 9) ∷ (false, pos 0) ∷ (true, pos 3) ∷ []) out
    × All Fits out
place_orders-arranges_example =
    place_orders-arranges (pos 9 ∷ []) (pos 0) ((true, pos 3) ∷ []) (negsuc 4 ∷ pos 0 ∷ pos 7 ∷ [])
      (omega arith, (omega arith, refl, (omega arith, tt)))
      ((omega arith, omega arith), ((omega arith, omega arith), ((omega arith, omega arith), tt)))

abbrev writer : User
writer = record {
  id = 2;
  username = codes "ann";
  hashed_password = codes "$2b$";
  is_active = true;
  can_share = true;
  last_login_at = none;
  unix_uid = none;
  roles = [];
}

abbrev note : Document
note = record {
  id = 3;
  title = codes "plan";
  source_path = none;
  file_type = codes "md";
  content = codes "old";
  owner_id = some 2;
  folder_id = none;
  group_id = none;
  group_read = false;
  group_write = false;
  others_read = true;
  others_write = false;
  searchable = true;
  ai_knowledge = true;
  share_prohibited = false;
  download_prohibited = false;
  summary = [];
  memo = [];
  processing_status = codes "done";
  created_by_id = some 2;
  updated_by_id = none;
  updated_at = 0;
  deleted_at = none;
  current_version = 1;
  is_note = true;
  note_content = none;
  parent_note_id = none;
  note_order = pos 0;
  edit_count = 0;
  last_accessed_at = none;
}

-- A child of somebody else.
abbrev other : Document
other = record note { id = 4; owner_id = some 9; parent_note_id = some 3 }

abbrev tables : Tables
tables = record {
  db = record {
    users = writer ∷ [];
    groups = [];
    members = [];
    folders = [];
    documents = note ∷ other ∷ [];
    favorites = [];
    audit_logs = [];
  };
  store = record { versions = []; files = []; chunks = []; jobs = []; disk = λ path. none };
  tags = [];
  accesses = [];
}

abbrev to_end : NoteMove
to_end = record { parent_note_id = none; note_order = none; position = some (pos 5) }

abbrev below_child : NoteMove
below_child = record { parent_note_id = some (some 4); note_order = none; position = none }

-- A note cannot go below its own child.
circular : move_note (λ a b. false) 3 below_child writer tables ≡ some (http_error 400)
unfolding move_note is_above readable_parent any_document can_access_document is_admin in_group
circular = refl

tables_unique : UniqueBy (λ (d : Document). d.id) tables.db.documents
tables_unique = ((omega arith, tt), (tt, tt))

not_mine : may_write other writer tables ≡ false
unfolding can_access_document is_admin in_group
not_mine = refl

notes-untouched_example :
    Leaves other (remove_note 3 writer tables)
    × Leaves other (delete_note_with_file 7 3 writer tables)
    × LeavesIfEnds other (move_note (λ a b. false) 3 to_end writer tables)
notes-untouched_example =
    notes-untouched (λ a b. false) 7 3 to_end writer tables other tables_unique (inr (inl refl))
      not_mine
