-- ===== src/Storage.antt =====
-- The object store of the images: the interface of src/storage/object-store.ts.
pub mod S3
use ai_statement_analyzer.Base.{ℕ, String, Option, List}
use ai_statement_analyzer.Effects.{Exec}
use ai_statement_analyzer.Database.Types.{ContentType}

pub record ObjectMetadata : Type 0 where
  pub content_type : Option String
  pub content_length : ℕ

-- A byte is a number below 256.
pub record DownloadedObject : Type 0 where
  pub metadata : ObjectMetadata
  pub open metadata use *
  pub bytes : List ℕ

pub record PutUrlInput : Type 0 where
  pub key : String
  pub content_type : ContentType
  pub expires_in_seconds : ℕ

pub record StatementObjectStore (S : Type 0) : Type 0 where
  pub create_presigned_put_url : PutUrlInput → Exec S String
  pub head_object : String → Exec S ObjectMetadata
  pub get_object : String → Exec S DownloadedObject
