-- ===== src/LayoutImport/Analysis.antt =====
-- layout-import/recognizers/geometry-layout.recognizer.ts: the analysis of a raster, and the part of
-- layout-import/layout-import.worker.ts that limits its proposals.
use omnixys_seat_service.Base.{
  ℕ, ◌≡◌, ◌≤◌, ◌<◌, ◌+◌, refl, inl, inr, Option, none, some, List, [], ◌∷◌, All, ltb, if◌then◌else◌,
  length, subst, sym, arith,
}
use omnixys_seat_service.LayoutImport.Recognizer.{
  PreparedLayoutSource, invalid_raster, unsupported_contrast, source_too_complex, Recognized, done,
  failed, ◌>>=◌, Numbers,
}
use omnixys_seat_service.LayoutImport.Threshold.Defs.{binary_threshold}
use omnixys_seat_service.LayoutImport.Threshold.Outcome.{
  IsRaster, IsFlat, IsThreshold, binary_threshold-IsThreshold,
}
use omnixys_seat_service.LayoutImport.Flood.Defs.{Has}
use omnixys_seat_service.LayoutImport.Shapes.{ShapeCandidate, extract_shapes}
use omnixys_seat_service.LayoutImport.Interpreter.Elements.{
  geometry_only, no_objects, Warning, DetectedElement, Interpretation, interpret_shapes,
}

pub record LayoutRecognitionResult : Type 0 where
  pub elements : List DetectedElement
  pub warnings : List Warning
  pub width : ℕ
  pub height : ℕ
  pub threshold : Option ℕ

abbrev pub proposals_limit : ℕ
proposals_limit = 10000

abbrev pub candidates_at :
    Numbers → PreparedLayoutSource → Option ℕ → Recognized (List ShapeCandidate)
candidates_at n source none = done []
candidates_at n source (some threshold) = extract_shapes n source threshold

abbrev pub result_of : PreparedLayoutSource → Option ℕ → Interpretation → LayoutRecognitionResult
result_of source threshold i = record {
  elements = i.elements;
  warnings = i.warnings;
  width = source.width;
  height = source.height;
  threshold = threshold;
}

abbrev pub analyze_at :
    Numbers → PreparedLayoutSource → Option ℕ → Recognized LayoutRecognitionResult
analyze_at n source threshold = do
  candidates ← candidates_at n source threshold
  i ← interpret_shapes n candidates source
  done (result_of source threshold i)

unfoldable pub analyze : Numbers → PreparedLayoutSource → Recognized LayoutRecognitionResult
unfolding binary_threshold extract_shapes interpret_shapes
analyze n source = do threshold ← binary_threshold n source; analyze_at n source threshold

-- `LayoutImportSourceError('SOURCE_TOO_COMPLEX')` has the code that recognition has for it.
unfoldable pub limit_proposals : LayoutRecognitionResult → Recognized LayoutRecognitionResult
limit_proposals result =
    if ltb proposals_limit (length result.elements) then failed source_too_complex else done result

-- What the worker posts for a raster that was prepared.
unfoldable pub work : Numbers → PreparedLayoutSource → Recognized LayoutRecognitionResult
unfolding analyze limit_proposals
work n source = do result ← analyze n source; limit_proposals result

abbrev pub blank_result : PreparedLayoutSource → LayoutRecognitionResult
blank_result source = record {
  elements = [];
  warnings =
      record { code = geometry_only; element_ids = [] }
      ∷ record { code = no_objects; element_ids = [] }
      ∷ [];
  width = source.width;
  height = source.height;
  threshold = none;
}

All-Has : (P : ℕ → Type 0) (xs : List ℕ) (v : ℕ) → All P xs → Has v xs → P v
All-Has P [] v h m = absurd m
All-Has P (x ∷ xs) v h (inl e) = subst P (sym e) h.0
All-Has P (x ∷ xs) v h (inr m) = All-Has P xs v h.1 m

-- A threshold of a flat bright raster is none.
blank_threshold :
    (source : PreparedLayoutSource) (r : Recognized (Option ℕ))
    → IsThreshold source r
    → IsRaster source
    → IsFlat source.pixels
    → All (λ v. 224 ≤ v) source.pixels
    → r ≡ done none
blank_threshold source (failed invalid_raster) t r f b = absurd (t r)
blank_threshold source (failed unsupported_contrast) t r f b =
    let (v, has, dim) = t.2 in
    let bright = All-Has (λ v. 224 ≤ v) source.pixels v b has in absurd (omega arith)
blank_threshold source (failed source_too_complex) t r f b = absurd t
blank_threshold source (done none) t r f b = refl
blank_threshold source (done (some threshold)) t r f b =
    let s = t.1 in
    let row =
      All-Has (λ v. All (λ u. u < v + 24) source.pixels) source.pixels s.dark f s.has_dark in
    let near = All-Has (λ u. u < s.dark + 24) source.pixels s.light row s.has_light in
    absurd (omega (arith, s.apart))

-- A raster of bytes, all of them bright and within 24 of each other, is analysed without an error: no
-- element, the warning that only geometry counts, the warning that nothing was found, no threshold.
pub work-blank :
    (n : Numbers) (source : PreparedLayoutSource)
    → All (λ v. v < 256) source.pixels
    → IsRaster source
    → IsFlat source.pixels
    → All (λ v. 224 ≤ v) source.pixels
    → work n source ≡ done (blank_result source)
unfolding work
work-blank n source bytes r f b =
    rw (blank_threshold source _ (binary_threshold-IsThreshold n source bytes) r f b) refl
