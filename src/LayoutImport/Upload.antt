-- ===== src/LayoutImport/Upload.antt =====
-- layout-import/layout-import.service.ts: readImportRequest, the errors of analyze, and the slots of
-- concurrent imports (Slots). Of the bytes of a file its length is kept. The parts, the chunks and
-- `JSON.parse` are those of the request's libraries; an abort, and an error of a library, may come in
-- place of the next part or chunk.
pub mod Limits
pub mod Slots
use omnixys_seat_service.Base.{
  ℕ, ◌+◌, Bool, true, false, not, ◌&&◌, ◌||◌, Option, none, some, List, [], ◌∷◌, ◌++◌, String,
  str_eq, ◌==◌, ltb, leb, length, if◌then◌else◌, is_some,
}
use omnixys_seat_service.Meta.{Json}
use omnixys_seat_service.LayoutImport.Contract.{
  original_bytes, prepared_bytes, LayoutImportMetadata, parse_import_metadata,
}

pub record LayoutImportRequestError : Type 0 where
  pub code : String
  pub status : ℕ

-- An error of HTTP, of the source (`LayoutImportSourceError`), of a stream that ended early, of Fastify
-- or any other one.
pub data Failure : Type 0 where
  http : LayoutImportRequestError → Failure
  source : String → Failure
  premature_close fastify other : Failure

pub data Outcome (A : Type 0) : Type 0 where
  got : A → Outcome A
  threw : Failure → Outcome A

infixl 5 ◌>>=◌
abbrev pub ◌>>=◌ : {A B : Type 0} → Outcome A → (A → Outcome B) → Outcome B
got a >>= f = f a
threw e >>= f = threw e

abbrev pub request_error : String → ℕ → {A : Type 0} → Outcome A
request_error code status = threw (http (record { code = code; status = status }))

pub data Chunk : Type 0 where
  bytes : ℕ → Chunk
  broken : Failure → Chunk

pub record LayoutImportFile : Type 0 where
  pub size : ℕ
  pub mimetype : String

pub record FilePart : Type 0 where
  pub fieldname : String
  pub mimetype : String
  pub chunks : List Chunk
  pub truncated : Bool

-- `value` is `none` where it is no text.
pub record FieldPart : Type 0 where
  pub fieldname : String
  pub value_truncated : Bool
  pub value : Option String

pub data Part : Type 0 where
  field : FieldPart → Part
  file : FilePart → Part
  lost : Failure → Part

-- `files` and `metadata`, which is `none` while it is `undefined`.
pub record Received : Type 0 where
  pub files : List (String × LayoutImportFile)
  pub metadata : Option Json

pub record LayoutImportJob : Type 0 where
  pub metadata : LayoutImportMetadata
  pub original_source : LayoutImportFile
  pub prepared_image : LayoutImportFile

abbrev pub file_named : String → List (String × LayoutImportFile) → Option LayoutImportFile
file_named name [] = none
file_named name ((n, f) ∷ rest) = if str_eq n name then some f else file_named name rest

unfoldable pub read_chunks : ℕ → ℕ → List Chunk → Outcome ℕ
read_chunks maximum size [] = got size
read_chunks maximum size (bytes n ∷ rest) =
    let more = read_chunks maximum (size + n) rest in
    if ltb maximum (size + n) then request_error "SOURCE_TOO_LARGE" 413 else more
read_chunks maximum size (broken e ∷ rest) = threw e

abbrev pub maximum_of : String → ℕ
maximum_of fieldname = if str_eq fieldname "preparedImage" then prepared_bytes else original_bytes

abbrev pub is_file_name : String → Bool
is_file_name name = str_eq name "originalSource" || str_eq name "preparedImage"

abbrev pub keep_file : FilePart → Received → ℕ → Outcome Received
keep_file part s size =
    if part.truncated || size == 0
    then request_error "INVALID_UPLOAD" 413
    else got (record s {
      files = s.files ++ (part.fieldname, record { size = size; mimetype = part.mimetype }) ∷ [];
    })

unfoldable pub read_file : FilePart → Received → Outcome Received
unfolding read_chunks
read_file part s =
    if not (is_file_name part.fieldname) || is_some (file_named part.fieldname s.files)
    then request_error "INVALID_UPLOAD" 400
    else read_chunks (maximum_of part.fieldname) 0 part.chunks >>= λ size. keep_file part s size

module _ (parse : String → Option Json) where
  abbrev pub keep_metadata : Received → Option Json → Outcome Received
  keep_metadata s none = request_error "INVALID_METADATA" 400
  keep_metadata s (some v) = got (record s { metadata = some v })

  abbrev pub read_value : Received → Option String → Outcome Received
  read_value s none = request_error "INVALID_METADATA" 400
  read_value s (some text) = keep_metadata s (parse text)

  unfoldable pub read_field : FieldPart → Received → Outcome Received
  read_field part s =
      if not (str_eq part.fieldname "metadata") || is_some s.metadata || part.value_truncated
      then request_error "INVALID_METADATA" 400
      else read_value s part.value

  unfoldable pub read_part : Part → Received → Outcome Received
  unfolding read_field read_file
  read_part (field part) s = read_field part s
  read_part (file part) s = read_file part s
  read_part (lost e) s = threw e

  unfoldable pub read_parts : List Part → Received → Outcome Received
  unfolding read_part
  read_parts [] s = got s
  read_parts (part ∷ rest) s = read_part part s >>= λ s'. read_parts rest s'

  abbrev pub job_of :
      LayoutImportFile → LayoutImportFile → Option LayoutImportMetadata → Outcome LayoutImportJob
  job_of original prepared none = threw (source "INVALID_METADATA")
  job_of original prepared (some m) =
      got (record { metadata = m; original_source = original; prepared_image = prepared })

  abbrev pub collect :
      Option Json → Option LayoutImportFile → Option LayoutImportFile → Outcome LayoutImportJob
  collect metadata (some original) (some prepared) =
      job_of original prepared (parse_import_metadata metadata)
  collect metadata _ _ = request_error "MISSING_SOURCE" 400

  abbrev pub finish : Received → Outcome LayoutImportJob
  finish s =
      collect s.metadata (file_named "originalSource" s.files) (file_named "preparedImage" s.files)

  -- The signal may be aborted when the reading begins.
  unfoldable pub read_import_request :
      Option LayoutImportRequestError → Bool → List Part → Outcome LayoutImportJob
  unfolding read_parts parse_import_metadata
  read_import_request (some reason) is_multipart parts = threw (http reason)
  read_import_request none is_multipart parts =
      if not is_multipart
      then request_error "INVALID_UPLOAD" 400
      else read_parts parts (record { files = []; metadata = none }) >>= λ s. finish s

-- The answer of analyze to an error, given the reason with which its signal is aborted, if it is.
unfoldable pub respond : Option LayoutImportRequestError → Failure → LayoutImportRequestError
respond (some reason) e = reason
respond none (http e) = e
respond none (source code) = record { code = code; status = 400 }
respond none premature_close = record { code = "INVALID_UPLOAD"; status = 400 }
respond none fastify = record { code = "INVALID_UPLOAD"; status = 413 }
respond none other = record { code = "IMPORT_FAILED"; status = 500 }
