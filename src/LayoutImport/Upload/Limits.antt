-- ===== src/LayoutImport/Upload/Limits.antt =====
-- What readImportRequest lets through (layout-import/layout-import.service.ts).
use omnixys_seat_service.Base.{
  ℕ, ◌+◌, ◌≤◌, ◌≡◌, refl, Bool, true, false, not, ◌||◌, Option, none, some, List, [], ◌∷◌, ◌++◌,
  String, str_eq, eq_iff, ◌==◌, ltb, is_some, All, arith, Bool-cases, inl, inr, subst, some_inj,
}
use omnixys_seat_service.Meta.{Json}
use omnixys_seat_service.LayoutImport.Contract.{
  original_bytes, prepared_bytes, LayoutImportMetadata, parse_import_metadata,
}
use omnixys_seat_service.LayoutImport.Contract.Metadata.{
  IsMeasured, parse_import_metadata-IsMeasured,
}
use omnixys_seat_service.LayoutImport.Upload.{
  LayoutImportRequestError, Outcome, got, threw, ◌>>=◌, Chunk, bytes, broken, LayoutImportFile,
  FilePart, FieldPart, Part, field, file, lost, Received, LayoutImportJob, file_named, read_chunks,
  maximum_of, is_file_name, keep_file, read_file, read_field, read_value, keep_metadata, read_part,
  read_parts, job_of, collect, finish, read_import_request,
}

-- A file is not empty and within the limit of its name.
abbrev IsKept : String × LayoutImportFile → Type 0
IsKept (name, f) = (1 ≤ f.size) × (f.size ≤ maximum_of name)

abbrev Keeps : Outcome Received → Type 0
Keeps (got s) = All IsKept s.files
Keeps (threw e) = Unit

read_chunks-le :
    (maximum size : ℕ) (chunks : List Chunk) (n : ℕ)
    → size ≤ maximum
    → read_chunks maximum size chunks ≡ got n
    → n ≤ maximum
unfolding read_chunks
read_chunks-le maximum size [] n le e = ground arith
read_chunks-le maximum size (bytes k ∷ rest) n le e = elim (Bool-cases (ltb maximum (size + k))) [
  | inl over ↦ cc (rw over at e)
  | inr room ↦ read_chunks-le maximum (size + k) rest n (ground arith) (rw room at e)
]
read_chunks-le maximum size (broken f ∷ rest) n le e = cc

All-snoc :
    (fs : List (String × LayoutImportFile)) (f : String × LayoutImportFile)
    → All IsKept fs
    → IsKept f
    → All IsKept (fs ++ f ∷ [])
All-snoc [] f h k = (k, tt)
All-snoc (x ∷ fs) f h k = (h.0, All-snoc fs f h.1 k)

keep_file-Keeps :
    (part : FilePart) (s : Received) (size : ℕ)
    → All IsKept s.files
    → size ≤ maximum_of part.fieldname
    → Keeps (keep_file part s size)
keep_file-Keeps part s size h le = elim (Bool-cases (part.truncated || size == 0)) [
  | inl bad ↦ rw bad tt
  | inr fine ↦ rw fine (All-snoc s.files _ h (ground arith, le))
]

keep_read :
    (part : FilePart) (s : Received) (r : Outcome ℕ)
    → All IsKept s.files
    → ((n : ℕ) → r ≡ got n → n ≤ maximum_of part.fieldname)
    → Keeps (r >>= λ size. keep_file part s size)
keep_read part s (got n) h le = keep_file-Keeps part s n h (le n refl)
keep_read part s (threw e) h le = tt

read_file-Keeps : (part : FilePart) (s : Received) → All IsKept s.files → Keeps (read_file part s)
unfolding read_file
read_file-Keeps part s h =
    elim (Bool-cases
      (not (is_file_name part.fieldname) || is_some (file_named part.fieldname s.files))) [
        | inl bad ↦ rw bad tt
        | inr fine ↦ rw fine (
            keep_read part s (read_chunks (maximum_of part.fieldname) 0 part.chunks) h
              (λ n e. read_chunks-le (maximum_of part.fieldname) 0 part.chunks n (omega arith) e))
      ]

module _ (parse : String → Option Json) where
  keep_metadata-Keeps :
      (s : Received) (o : Option Json) → All IsKept s.files → Keeps (keep_metadata parse s o)
  keep_metadata-Keeps s none h = tt
  keep_metadata-Keeps s (some v) h = h

  read_value-Keeps :
      (s : Received) (o : Option String) → All IsKept s.files → Keeps (read_value parse s o)
  read_value-Keeps s none h = tt
  read_value-Keeps s (some text) h = keep_metadata-Keeps s (parse text) h

  read_field-Keeps :
      (part : FieldPart) (s : Received) → All IsKept s.files → Keeps (read_field parse part s)
  unfolding read_field
  read_field-Keeps part s h =
      elim (Bool-cases
        (not (str_eq part.fieldname "metadata") || is_some s.metadata || part.value_truncated)) [
          | inl bad ↦ rw bad tt
          | inr fine ↦ rw fine (read_value-Keeps s part.value h)
        ]

  read_part-Keeps :
      (part : Part) (s : Received) → All IsKept s.files → Keeps (read_part parse part s)
  unfolding read_part
  read_part-Keeps (field part) s h = read_field-Keeps part s h
  read_part-Keeps (file part) s h = read_file-Keeps part s h
  read_part-Keeps (lost e) s h = tt

  Keeps-bind :
      (r : Outcome Received) (f : Received → Outcome Received)
      → Keeps r
      → ((s : Received) → All IsKept s.files → Keeps (f s))
      → Keeps (r >>= f)
  Keeps-bind (got s) f h next = next s h
  Keeps-bind (threw e) f h next = tt

  read_parts-Keeps :
      (parts : List Part) (s : Received) → All IsKept s.files → Keeps (read_parts parse parts s)
  unfolding read_parts
  read_parts-Keeps [] s h = h
  read_parts-Keeps (part ∷ rest) s h =
      Keeps-bind (read_part parse part s) _ (read_part-Keeps part s h)
        (λ s' h'. read_parts-Keeps rest s' h')

file_named-IsKept :
    (name : String) (fs : List (String × LayoutImportFile)) (f : LayoutImportFile)
    → All IsKept fs
    → file_named name fs ≡ some f
    → IsKept (name, f)
file_named-IsKept name [] f h e = cc
file_named-IsKept name ((n, g) ∷ fs) f h e = elim (Bool-cases (str_eq n name)) [
  | inl same ↦
      let q : g ≡ f = some_inj (rw same at e) in
      subst (λ x. IsKept (name, x)) q (subst (λ x. IsKept (x, g)) ((eq_iff n name).0 same) h.0)
  | inr differ ↦ file_named-IsKept name fs f h.1 (rw differ at e)
]

-- What the limits of an import say of what was read.
pub record IsWithinLimits (job : LayoutImportJob) : Type 0 where
  pub original : (1 ≤ job.original_source.size) × (job.original_source.size ≤ original_bytes)
  pub prepared : (1 ≤ job.prepared_image.size) × (job.prepared_image.size ≤ prepared_bytes)
  pub metadata : IsMeasured job.metadata

job_of-IsWithinLimits :
    (parse : String → Option Json) (original prepared : LayoutImportFile)
    (m : Option LayoutImportMetadata) (job : LayoutImportJob)
    → IsKept ("originalSource", original)
    → IsKept ("preparedImage", prepared)
    → ((x : LayoutImportMetadata) → m ≡ some x → IsMeasured x)
    → job_of parse original prepared m ≡ got job
    → IsWithinLimits job
job_of-IsWithinLimits parse original prepared none job h k measured e = cc
job_of-IsWithinLimits parse original prepared (some m) job h k measured e =
    let same : record { metadata = m; original_source = original; prepared_image = prepared }
        ≡ job =
      cc in
    subst IsWithinLimits same (record { original = h; prepared = k; metadata = measured m refl })

collect-IsWithinLimits :
    (parse : String → Option Json) (metadata : Option Json)
    (original prepared : Option LayoutImportFile) (job : LayoutImportJob)
    → ((f : LayoutImportFile) → original ≡ some f → IsKept ("originalSource", f))
    → ((f : LayoutImportFile) → prepared ≡ some f → IsKept ("preparedImage", f))
    → collect parse metadata original prepared ≡ got job
    → IsWithinLimits job
collect-IsWithinLimits parse metadata (some f) (some g) job h k e =
    job_of-IsWithinLimits parse f g (parse_import_metadata metadata) job (h f refl) (k g refl)
      (λ m q. parse_import_metadata-IsMeasured metadata m q) e
collect-IsWithinLimits parse metadata f g job h k e = cc

finish-IsWithinLimits :
    (parse : String → Option Json) (r : Outcome Received) (job : LayoutImportJob)
    → Keeps r
    → (r >>= λ s. finish parse s) ≡ got job
    → IsWithinLimits job
finish-IsWithinLimits parse (threw x) job h e = cc
finish-IsWithinLimits parse (got s) job h e =
    collect-IsWithinLimits parse s.metadata (file_named "originalSource" s.files)
      (file_named "preparedImage" s.files) job
      (λ f q. file_named-IsKept "originalSource" s.files f h q)
      (λ f q. file_named-IsKept "preparedImage" s.files f h q) e

-- Whatever the parts of the request and however their chunks come, an import that is read has an
-- original source of 1 byte to 20 MiB, a prepared image of 1 byte to 8 MiB, a width and a height from
-- 1 to 2,048, and a page from 1 to 100 where it is a PDF and none where it is not.
pub read_import_request-IsWithinLimits :
    (parse : String → Option Json) (aborted : Option LayoutImportRequestError) (is_multipart : Bool)
    (parts : List Part) (job : LayoutImportJob)
    → read_import_request parse aborted is_multipart parts ≡ got job
    → IsWithinLimits job
unfolding read_import_request
read_import_request-IsWithinLimits parse (some reason) is_multipart parts job e = cc
read_import_request-IsWithinLimits parse none false parts job e = cc
read_import_request-IsWithinLimits parse none true parts job e =
    finish-IsWithinLimits parse (read_parts parse parts (record { files = []; metadata = none }))
      job (read_parts-Keeps parse parts (record { files = []; metadata = none }) tt) e
