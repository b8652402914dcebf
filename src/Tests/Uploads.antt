-- ===== src/Tests/Uploads.antt =====
-- The theorems on import requests at concrete inputs: a request with two files, and two imports at once.
use omnixys_seat_service.Base.{
  ℕ, ◌≡◌, refl, ◌≤◌, ◌↔◌, true, false, Option, none, some, List, [], ◌∷◌, String, length, inl,
}
use omnixys_seat_service.Base.Int.{pos}
use omnixys_seat_service.Meta.{Json, obj, field, end, str, num}
use omnixys_seat_service.LayoutImport.Contract.{pdf}
use omnixys_seat_service.LayoutImport.Flood.Defs.{Has}
use omnixys_seat_service.LayoutImport.Upload.{
  got, request_error, bytes, Part, LayoutImportJob, read_import_request,
}
use omnixys_seat_service.LayoutImport.Upload.{file as a_file, field as a_field}
use omnixys_seat_service.LayoutImport.Upload.Limits.{
  IsWithinLimits, read_import_request-IsWithinLimits,
}
use omnixys_seat_service.LayoutImport.Upload.Slots.{
  Imports, begin, release, Run, idle, begins, ends, Run-slots,
}

abbrev metadata : Json
metadata = obj (
    field "kind" (str "PDF") (
      field "width" (num (pos 640))
        (field "height" (num (pos 480)) (field "pageNumber" (num (pos 2)) end))))

abbrev parse : String → Option Json
parse text = some metadata

abbrev parts : List Part
parts =
    a_field (record { fieldname = "metadata"; value_truncated = false; value = some "{}" })
    ∷ a_file (record {
      fieldname = "originalSource";
      mimetype = "application/pdf";
      chunks = bytes 1000 ∷ bytes 500 ∷ [];
      truncated = false;
    })
    ∷ a_file (record {
      fieldname = "preparedImage";
      mimetype = "image/png";
      chunks = bytes 700 ∷ [];
      truncated = false;
    })
    ∷ []

abbrev job : LayoutImportJob
job = record {
  metadata = record { kind = pdf; width = 640; height = 480; page_number = some 2 };
  original_source = record { size = 1500; mimetype = "application/pdf" };
  prepared_image = record { size = 700; mimetype = "image/png" };
}

job_read : read_import_request parse none true parts ≡ got job
unfolding read_import_request
job_read = refl

read_import_request-IsWithinLimits_example : IsWithinLimits job
read_import_request-IsWithinLimits_example =
    read_import_request-IsWithinLimits parse none true parts job job_read

abbrev two_imports : Imports
two_imports = record { active = 2; running = 5 ∷ 4 ∷ [] }

-- Import 3 ends before 4 and 5 begin.
two_imports-Run : Run two_imports
unfolding begin release
two_imports-Run = begins (begins (ends (begins idle 3 refl) 3 (inl refl)) 4 refl) 5 refl

Run-slots_example :
    (two_imports.active ≡ length two_imports.running)
    × (length two_imports.running ≤ 2)
    × ((begin 6 two_imports ≡ request_error "IMPORT_BUSY" 429) ↔ (length two_imports.running ≡ 2))
    × ((id : ℕ)
        → Has id two_imports.running
        → (t : Imports) × (begin 6 (release id two_imports) ≡ got t))
Run-slots_example = Run-slots two_imports 6 two_imports-Run
