-- ===== src/LayoutImport/Contract/Metadata.antt =====
-- What the metadata of an import may be (layout-import/layout-import.contract.ts).
use omnixys_seat_service.Base.{
  ℕ, ◌≤◌, ◌≡◌, refl, Option, none, some, Bool-cases, inl, inr, arith, some_inj, subst,
}
use omnixys_seat_service.Base.Int.{pos}
use omnixys_seat_service.Meta.{Json, num, obj, Fields, get}
use omnixys_seat_service.LayoutImport.Contract.{
  prepared_edge, pdf_pages, SourceKind, image, pdf, camera, LayoutImportMetadata, read_kind, within,
  read_number, ◌>>=◌, read_page, has_known_keys, read_fields, parse_import_metadata,
}

-- The page of a PDF; no other source has one.
abbrev pub IsPage : SourceKind → Option ℕ → Type 0
IsPage pdf none = ⊥
IsPage pdf (some n) = (1 ≤ n) × (n ≤ pdf_pages)
IsPage image none = Unit
IsPage image (some n) = ⊥
IsPage camera none = Unit
IsPage camera (some n) = ⊥

-- The limits of the metadata.
pub record IsMeasured (m : LayoutImportMetadata) : Type 0 where
  pub width : (1 ≤ m.width) × (m.width ≤ prepared_edge)
  pub height : (1 ≤ m.height) × (m.height ≤ prepared_edge)
  pub page : IsPage m.kind m.page_number

within-some : (limit n m : ℕ) → within limit n ≡ some m → (1 ≤ m) × (m ≤ limit)
within-some limit n m e = ground arith

read_number-some :
    (limit : ℕ) (o : Option Json) (n : ℕ) → read_number limit o ≡ some n → (1 ≤ n) × (n ≤ limit)
read_number-some limit (some (num (pos m))) n e = within-some limit m n e
read_number-some limit o n e = cc

bind-some :
    {A B : Type 0} (o : Option A) (f : A → Option B) (b : B)
    → (o >>= f) ≡ some b
    → (a : A) × (o ≡ some a) × (f a ≡ some b)
bind-some none f b e = cc
bind-some (some a) f b e = (a, refl, e)

pdf-IsPage : (o : Option Json) (p : Option ℕ) → read_page pdf o ≡ some p → IsPage pdf p
pdf-IsPage o p e =
    let (n, r, q) = bind-some (read_number pdf_pages o) _ p e in
    subst (IsPage pdf) (some_inj q) (read_number-some pdf_pages o n r)

read_page-IsPage :
    (kind : SourceKind) (o : Option Json) (p : Option ℕ) → read_page kind o ≡ some p → IsPage kind p
read_page-IsPage pdf o p e = pdf-IsPage o p e
read_page-IsPage image none p e = subst (IsPage image) (some_inj e) tt
read_page-IsPage image (some x) p e = cc
read_page-IsPage camera none p e = subst (IsPage camera) (some_inj e) tt
read_page-IsPage camera (some x) p e = cc

read_fields-IsMeasured :
    (fs : Fields) (m : LayoutImportMetadata) → read_fields fs ≡ some m → IsMeasured m
unfolding read_fields
read_fields-IsMeasured fs m e =
    let (kind, k, e1) = bind-some (read_kind (get "kind" fs)) _ m e in
    let (width, w, e2) = bind-some (read_number prepared_edge (get "width" fs)) _ m e1 in
    let (height, h, e3) = bind-some (read_number prepared_edge (get "height" fs)) _ m e2 in
    let (page, p, e4) = bind-some (read_page kind (get "pageNumber" fs)) _ m e3 in
    subst IsMeasured (some_inj e4) (record {
      width = read_number-some prepared_edge (get "width" fs) width w;
      height = read_number-some prepared_edge (get "height" fs) height h;
      page = read_page-IsPage kind (get "pageNumber" fs) page p;
    })

known-IsMeasured :
    (fs : Fields) (m : LayoutImportMetadata)
    → parse_import_metadata (some (obj fs)) ≡ some m
    → IsMeasured m
unfolding parse_import_metadata
known-IsMeasured fs m e = elim (Bool-cases (has_known_keys fs)) [
  | inl known ↦ read_fields-IsMeasured fs m (rw known at e)
  | inr strange ↦ cc (rw strange at e)
]

-- Metadata that is accepted is within the limits.
pub parse_import_metadata-IsMeasured :
    (o : Option Json) (m : LayoutImportMetadata) → parse_import_metadata o ≡ some m → IsMeasured m
unfolding parse_import_metadata
parse_import_metadata-IsMeasured (some (obj fs)) m e = known-IsMeasured fs m e
parse_import_metadata-IsMeasured o m e = cc
