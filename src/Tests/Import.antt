-- ===== src/Tests/Import.antt =====
-- The theorems on recognition at concrete inputs: an image of three by two pixels, and a table with
-- three seats around it.
use omnixys_seat_service.Base.{
  ℕ, ◌≡◌, refl, ◌↔◌, ◌≢◌, ◌+◌, ◌*◌, if◌then◌else◌, ◌<◌, some, List, [], ◌∷◌, String, map, length,
  get_elem?, count_if, All, arith,
}
use Prim.Native.Nat.{◌/◌}
use omnixys_seat_service.Base.Int.{pos, pos_part, neg_part, sub_ℕ, ltb_ℤ, leb_ℤ, ◌+ℤ◌}
use omnixys_seat_service.Store.Exec.{Floats}
use omnixys_seat_service.LayoutImport.Recognizer.{
  PreparedLayoutSource, unsupported_contrast, Recognized, done, failed, Numbers,
}
use omnixys_seat_service.LayoutImport.Flood.Defs.{Connected}
use omnixys_seat_service.LayoutImport.Flood.Fuel.{open_below}
use omnixys_seat_service.LayoutImport.Threshold.Defs.{binary_threshold}
use omnixys_seat_service.LayoutImport.Threshold.Defs as ThresholdDefs
use omnixys_seat_service.LayoutImport.Analysis.{work, blank_result, work-blank}
use omnixys_seat_service.LayoutImport.Threshold.Outcome.{
  IsRaster, IsThreshold, binary_threshold-IsThreshold,
}
use omnixys_seat_service.LayoutImport.Components.{is_dark, Scan, find_components}
use omnixys_seat_service.LayoutImport.Components
use omnixys_seat_service.LayoutImport.Components.Grid.{IsNear}
use omnixys_seat_service.LayoutImport.Components.Found.{find_components-labels}
use omnixys_seat_service.LayoutImport.Contour.{rectangle}
use omnixys_seat_service.LayoutImport.Shapes.{ShapeCandidate, extract_shapes}
use omnixys_seat_service.LayoutImport.Shapes.Contrast.{extract_shapes_contrast}
use omnixys_seat_service.LayoutImport.Interpreter.Roles.{roles_of}
use omnixys_seat_service.LayoutImport.Interpreter.Elements
use omnixys_seat_service.LayoutImport.Interpreter.Elements.{
  DetectedElement, Interpretation, element_of, set_seat_count, interpretation_of, interpret_shapes,
  table,
}
use omnixys_seat_service.LayoutImport.Interpreter.Tally.{is_seat_at, is_doubtful_at}
use omnixys_seat_service.LayoutImport.Interpreter.Counts.{interpret_shapes-seat_counts}
use omnixys_seat_service.LayoutImport.Interpreter.Reviews.{
  warned, reviewed, interpret_shapes-warned,
}

-- Whole numbers in place of floating point numbers.
abbrev whole : Floats
whole = record {
  of_ℕ = pos;
  add = λ a b. a +ℤ b;
  sub = λ a b. sub_ℕ (pos_part a + neg_part b) (neg_part a + pos_part b);
  mul = λ a b.
      sub_ℕ (pos_part a * pos_part b + neg_part a * neg_part b)
        (pos_part a * neg_part b + neg_part a * pos_part b);
  div = λ a b. pos (pos_part a / pos_part b);
  neg = λ a. sub_ℕ (neg_part a) (pos_part a);
  min = λ a b. if ltb_ℤ a b then a else b;
  max = λ a b. if ltb_ℤ a b then b else a;
  cos = λ a. a;
  sin = λ a. a;
  sqrt = λ a. a;
  pi = pos 3;
  infinity = pos 999999;
  ceil = λ a. pos_part a;
}

abbrev numbers : Numbers
numbers = record {
  floats = whole;
  lt = ltb_ℤ;
  le = leb_ℤ;
  square = λ a. pos (pos_part a * pos_part a + neg_part a * neg_part a);
  abs = λ a. pos (pos_part a + neg_part a);
  hypot = λ a b. pos (pos_part a + pos_part b);
}

-- Two dark columns, and a light one between them.
abbrev image : PreparedLayoutSource
image = record { pixels = 0 ∷ 255 ∷ 0 ∷ 10 ∷ 255 ∷ 0 ∷ []; width = 3; height = 2; channels = 1 }

image-bytes : All (λ v. v < 256) image.pixels
image-bytes =
    (omega arith, (omega arith, (omega arith, (omega arith, (omega arith, (omega arith, tt))))))

binary_threshold-IsThreshold_example : IsThreshold image (binary_threshold numbers image)
binary_threshold-IsThreshold_example = binary_threshold-IsThreshold numbers image image-bytes

image-threshold : binary_threshold numbers image ≡ done (some 10)
unfolding binary_threshold ThresholdDefs.otsu ThresholdDefs.variance
image-threshold = refl

abbrev scan_or : Scan → Recognized Scan → Scan
scan_or s (done t) = t
scan_or s (failed e) = s

abbrev blank : Scan
blank = record { labels = λ _. 0; components = []; component_count = 0; dark_count = 0 }

abbrev scan : Scan
scan = scan_or blank (find_components image 10)

scan-done : find_components image 10 ≡ done scan
unfolding find_components Components.scan_pixels
scan-done = refl

find_components-labels_example :
    (scan.labels 0 ≢ 0)
    × ((scan.labels 0 ≡ scan.labels 3) ↔ Connected (is_dark image 10) (IsNear image.width) 0 3)
find_components-labels_example =
    find_components-labels numbers image 10 image-bytes image-threshold scan scan-done 0 3 refl refl

extract_shapes_contrast_example :
    (extract_shapes numbers image 10 ≡ failed unsupported_contrast)
    ↔ (3 * length image.pixels < 5 * open_below (is_dark image 10) (length image.pixels))
extract_shapes_contrast_example =
    extract_shapes_contrast numbers image 10 image-bytes image-threshold (omega arith)

abbrev body : String → ℕ → ℕ → ℕ → ShapeCandidate
body id x y size = record {
  id = id;
  x = pos x;
  y = pos y;
  width = pos size;
  height = pos size;
  shape = some rectangle;
  quality = pos 1;
}

abbrev laid_table : List ShapeCandidate
laid_table =
    body "detected-1" 50 50 40
    ∷ body "detected-2" 50 20 8
    ∷ body "detected-3" 20 50 8
    ∷ body "detected-4" 80 50 8
    ∷ []

abbrev reading : Interpretation
reading = interpretation_of numbers laid_table image

reading-done : interpret_shapes numbers laid_table image ≡ done reading
unfolding interpret_shapes
reading-done = refl

interpret_shapes-warned_example :
    (map (λ e. e.id) reading.elements ≡ map (λ c. c.id) laid_table)
    × (warned reading.warnings ≡ reviewed reading.elements)
interpret_shapes-warned_example =
    interpret_shapes-warned numbers laid_table image reading reading-done

abbrev table_element : DetectedElement
table_element =
    set_seat_count (λ _. 3)
      (element_of numbers image (roles_of numbers image laid_table) table
        (body "detected-1" 50 50 40))

table_found : get_elem? reading.elements 0 ≡ some table_element
unfolding interpretation_of Elements.interpret_all ◌+ℤ◌
table_found = refl

interpret_shapes-seat_counts_example :
    (table_element.seat_count ≡ some (count_if (is_seat_at "detected-1") reading.elements))
    × (count_if (is_doubtful_at "detected-1") reading.elements ≡ 0)
unfolding element_of
interpret_shapes-seat_counts_example =
    interpret_shapes-seat_counts numbers laid_table image reading 0 table_element reading-done
      table_found refl

-- One bright pixel.
abbrev bright : PreparedLayoutSource
bright = record { pixels = 230 ∷ []; width = 1; height = 1; channels = 1 }

bright-IsRaster : IsRaster bright
bright-IsRaster = record {
  wide = omega arith;
  narrow = omega arith;
  tall = omega arith;
  short = omega arith;
  grey = refl;
  full = refl;
}

work-blank_example : work numbers bright ≡ done (blank_result bright)
work-blank_example =
    work-blank numbers bright (omega arith, tt) bright-IsRaster ((omega arith, tt), tt)
      (omega arith, tt)
