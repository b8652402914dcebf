-- ===== src/LayoutImport/Contract.antt =====
-- layout-import/layout-import.contract.ts: the limits of an import, and the metadata of its source. A
-- number of a JSON value is an integer.
pub mod Metadata
use omnixys_seat_service.Base.{
  ℕ, ◌*◌, Bool, true, ◌&&◌, ◌||◌, Option, none, some, String, str_eq, leb, if◌then◌else◌,
}
use omnixys_seat_service.Base.Int.{pos}
use omnixys_seat_service.Meta.{Json, num, str, obj, Fields, end, field, get}

abbrev pub original_bytes : ℕ
original_bytes = 20 * 1024 * 1024

abbrev pub prepared_bytes : ℕ
prepared_bytes = 8 * 1024 * 1024

abbrev pub prepared_edge : ℕ
prepared_edge = 2048

abbrev pub pdf_pages : ℕ
pdf_pages = 100

abbrev pub concurrency : ℕ
concurrency = 2

pub data SourceKind : Type 0 where
  image pdf camera : SourceKind

pub record LayoutImportMetadata : Type 0 where
  pub kind : SourceKind
  pub width : ℕ
  pub height : ℕ
  pub page_number : Option ℕ

abbrev pub kind_named : String → Option SourceKind
kind_named s =
    if str_eq s "IMAGE"
    then some image
    else if str_eq s "PDF"
    then some pdf
    else if str_eq s "CAMERA"
    then some camera
    else none

abbrev pub read_kind : Option Json → Option SourceKind
read_kind (some (str s)) = kind_named s
read_kind _ = none

-- A whole number from 1 to the limit.
abbrev pub within : ℕ → ℕ → Option ℕ
within limit n = if leb 1 n && leb n limit then some n else none

abbrev pub read_number : ℕ → Option Json → Option ℕ
read_number limit (some (num (pos n))) = within limit n
read_number limit _ = none

infixl 5 ◌>>=◌
abbrev pub ◌>>=◌ : {A B : Type 0} → Option A → (A → Option B) → Option B
none >>= f = none
some a >>= f = f a

-- The page is that of a PDF, and no other source has one.
abbrev pub read_page : SourceKind → Option Json → Option (Option ℕ)
read_page pdf page = do n ← read_number pdf_pages page; some (some n)
read_page kind none = some none
read_page kind (some _) = none

abbrev pub is_metadata_key : String → Bool
is_metadata_key key =
    str_eq key "kind" || str_eq key "width" || str_eq key "height" || str_eq key "pageNumber"

unfoldable pub has_known_keys : Fields → Bool
has_known_keys end = true
has_known_keys (field key v rest) = is_metadata_key key && has_known_keys rest

abbrev pub read_fields : Fields → Option LayoutImportMetadata
unfolding get
read_fields fs = do
  kind ← read_kind (get "kind" fs)
  width ← read_number prepared_edge (get "width" fs)
  height ← read_number prepared_edge (get "height" fs)
  page ← read_page kind (get "pageNumber" fs)
  some (record { kind = kind; width = width; height = height; page_number = page })

-- `none` where the metadata is refused.
unfoldable pub parse_import_metadata : Option Json → Option LayoutImportMetadata
unfolding get has_known_keys
parse_import_metadata (some (obj fs)) = if has_known_keys fs then read_fields fs else none
parse_import_metadata _ = none
