-- ===== src/Models.antt =====
-- The rows of backend/app/models.py. Identifiers (UUIDs and keys) are numbers, a nullable column is
-- an `Option`, a text column holds code points, and a timestamp counts microseconds. A record has
-- the columns that the modelled code reads or writes.
use local_ai_search.Prelude.{ℕ, ℤ, Bool, Option, List, Text}

pub record Role : Type 0 where
  pub name : Text
  pub permissions : Text

-- `roles` is the relation through `user_roles`.
pub record User : Type 0 where
  pub id : ℕ
  pub username : Text
  pub hashed_password : Text
  pub is_active : Bool
  pub can_share : Bool
  pub last_login_at : Option ℕ
  pub unix_uid : Option ℕ
  pub roles : List Role

pub record Group : Type 0 where
  pub id : ℕ
  pub name : Text
  pub description : Text
  pub unix_gid : Option ℕ

pub record GroupMember : Type 0 where
  pub group_id : ℕ
  pub user_id : ℕ

pub record Folder : Type 0 where
  pub id : ℕ
  pub name : Text
  pub parent_id : Option ℕ
  pub owner_id : Option ℕ
  pub group_id : Option ℕ
  pub group_read : Bool
  pub group_write : Bool
  pub others_read : Bool
  pub others_write : Bool

pub record Document : Type 0 where
  pub id : ℕ
  pub title : Text
  pub source_path : Option Text
  pub file_type : Text
  pub content : Text
  pub owner_id : Option ℕ
  pub folder_id : Option ℕ
  pub group_id : Option ℕ
  pub group_read : Bool
  pub group_write : Bool
  pub others_read : Bool
  pub others_write : Bool
  pub searchable : Bool
  pub ai_knowledge : Bool
  pub share_prohibited : Bool
  pub download_prohibited : Bool
  pub summary : Text
  pub memo : Text
  pub processing_status : Text
  pub created_by_id : Option ℕ
  pub updated_by_id : Option ℕ
  pub updated_at : ℕ
  pub deleted_at : Option ℕ
  pub current_version : ℕ
  pub is_note : Bool
  pub note_content : Option Text
  pub parent_note_id : Option ℕ
  pub note_order : ℤ
  pub edit_count : ℕ
  pub last_accessed_at : Option ℕ

pub record DocumentTag : Type 0 where
  pub document_id : ℕ
  pub tag_id : ℕ

pub record File : Type 0 where
  pub document_id : ℕ
  pub filename : Text
  pub storage_path : Text
  pub file_size : ℕ

pub record Chunk : Type 0 where
  pub document_id : ℕ
  pub chunk_index : ℕ
  pub content : Text

pub record DocumentVersion : Type 0 where
  pub document_id : ℕ
  pub version_number : ℕ
  pub title : Text
  pub content : Text
  pub file_type : Text
  pub source_path : Option Text
  pub file_size : Option ℕ
  pub change_type : Option Text
  pub created_by_id : Option ℕ

pub record ApiKey : Type 0 where
  pub id : ℕ
  pub key_hash : Text
  pub owner_id : ℕ
  pub permissions : Text
  pub is_active : Bool
  pub expires_at : Option ℕ
  pub last_used_at : Option ℕ

pub record UserFavorite : Type 0 where
  pub user_id : ℕ
  pub document_id : ℕ

pub record AuditLog : Type 0 where
  pub user_id : Option ℕ
  pub action : Text
  pub target_id : Option ℕ

-- The tables that the request handlers share.
pub record Db : Type 0 where
  pub users : List User
  pub groups : List Group
  pub members : List GroupMember
  pub folders : List Folder
  pub documents : List Document
  pub favorites : List UserFavorite
  pub audit_logs : List AuditLog
