-- ===== src/LayoutImport/Shapes.antt =====
-- layout-import/recognizers/raster-components.ts: extractShapes as a whole.
pub mod Distinct
pub mod Contrast
use omnixys_seat_service.Base.{
  ℕ, suc, ◌+◌, ◌*◌, Option, List, [], ◌∷◌, String, ltb, if◌then◌else◌, length,
}
use omnixys_seat_service.Base.Int.{ℤ}
use omnixys_seat_service.Base.Text.{decimal}
use Prim.Native.String.{◌++◌}
use omnixys_seat_service.LayoutImport.Recognizer.{
  PreparedLayoutSource, source_too_complex, unsupported_contrast, Recognized, done, failed, ◌>>=◌,
  Numbers,
}
use omnixys_seat_service.LayoutImport.Components.{
  Component, width_of, height_of, Scan, find_components,
}
use omnixys_seat_service.LayoutImport.Contour.{DetectedShape, fit_contour, ratio}

pub record ShapeCandidate : Type 0 where
  pub id : String
  pub x : ℤ
  pub y : ℤ
  pub width : ℤ
  pub height : ℤ
  pub shape : Option DetectedShape
  pub quality : ℤ

abbrev pub max_fit_pixels : ℕ
max_fit_pixels = 10000000

-- `detected-${index + 1}`
unfoldable pub candidate_id : ℕ → String
unfolding decimal
candidate_id index = "detected-" ++ decimal (suc index)

module _ (n : Numbers) where
  unfoldable pub candidate_of : Scan → ℕ → ℕ → Component → ShapeCandidate
  unfolding fit_contour candidate_id
  candidate_of s image_width index c =
      let fit = fit_contour n c s.labels image_width in
      record {
        id = candidate_id index;
        x = n.floats.add (n.floats.of_ℕ c.min_x) (ratio n (width_of c) 2);
        y = n.floats.add (n.floats.of_ℕ c.min_y) (ratio n (height_of c) 2);
        width = n.floats.of_ℕ (width_of c);
        height = n.floats.of_ℕ (height_of c);
        shape = fit.shape;
        quality = fit.quality;
      }

  unfoldable pub fit_components :
      Scan → ℕ → ℕ → ℕ → List Component → Recognized (List ShapeCandidate)
  unfolding candidate_of
  fit_components s image_width index fit_pixels [] = done []
  fit_components s image_width index fit_pixels (c ∷ rest) =
      let fit_pixels' = fit_pixels + (width_of c + 2) * (height_of c + 2) in
      let fitted = fit_components s image_width (suc index) fit_pixels' rest in
      if ltb max_fit_pixels fit_pixels'
      then failed source_too_complex
      else fitted >>= λ more. done (candidate_of s image_width index c ∷ more)

  -- `darkCount / data.length > 0.6`, which holds of such numbers in floating point just when it holds.
  abbrev pub shapes_of : PreparedLayoutSource → Scan → Recognized (List ShapeCandidate)
  shapes_of source s =
      if ltb (3 * length source.pixels) (5 * s.dark_count)
      then failed unsupported_contrast
      else fit_components s source.width 0 0 s.components

  unfoldable pub extract_shapes : PreparedLayoutSource → ℕ → Recognized (List ShapeCandidate)
  unfolding find_components fit_components
  extract_shapes source threshold = find_components source threshold >>= λ s. shapes_of source s
