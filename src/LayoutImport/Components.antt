-- ===== src/LayoutImport/Components.antt =====
-- layout-import/recognizers/raster-components.ts, extractShapes: the loop over the pixels that finds
-- the connected components of dark pixels.
pub mod Grid
pub mod Labelling
pub mod Ends
pub mod Found
use omnixys_seat_service.Base.{
  ℕ, zero, suc, ◌+◌, ◌-◌, ◌*◌, ◌/◌, min, Bool, not, ◌&&◌, ◌||◌, Option, none, some, List, [], ◌∷◌,
  ◌++◌, ◌==◌, ltb, leb, if◌then◌else◌, length, map, get_elem?, or_default,
}
use Prim.Native.Nat.{◌%◌, max}
use omnixys_seat_service.LayoutImport.Recognizer.{
  PreparedLayoutSource, source_too_complex, Recognized, done, failed, ◌>>=◌,
}
use omnixys_seat_service.LayoutImport.Flood.Defs.{mark, flood}

pub record Component : Type 0 where
  pub id : ℕ
  pub min_x : ℕ
  pub min_y : ℕ
  pub max_x : ℕ
  pub max_y : ℕ
  pub size : ℕ

abbrev pub max_components : ℕ
max_components = 20000

abbrev pub max_candidates : ℕ
max_candidates = 10000

-- `(data[index] ?? 255) <= threshold`
abbrev pub is_dark : PreparedLayoutSource → ℕ → ℕ → Bool
is_dark source threshold index = leb (or_default (get_elem? source.pixels index) 255) threshold

-- `dx + 1` and `dy + 1`, in the order of the loops.
abbrev pub offsets : List (ℕ × ℕ)
offsets = (0, 0) ∷ (1, 0) ∷ (2, 0) ∷ (0, 1) ∷ (1, 1) ∷ (2, 1) ∷ (0, 2) ∷ (1, 2) ∷ (2, 2) ∷ []

abbrev pub pixel_at : ℕ → ℕ → ℕ → ℕ → Option ℕ
pixel_at width height nx ny = if leb width nx || leb height ny then none else some (ny * width + nx)

abbrev pub next_pixel : ℕ → ℕ → ℕ → ℕ × ℕ → Option ℕ
next_pixel width height current (dx, dy) =
    let x = current % width + dx in
    let y = current / width + dy in
    if ltb x 1 || ltb y 1 then none else pixel_at width height (x - 1) (y - 1)

unfoldable pub neighbours : ℕ → ℕ → ℕ → List (Option ℕ)
neighbours width height current = map (next_pixel width height current) offsets

abbrev pub component_at : ℕ → ℕ → ℕ → Component
component_at width id index = record {
  id = id;
  min_x = index % width;
  max_x = index % width;
  min_y = index / width;
  max_y = index / width;
  size = 0;
}

abbrev pub grow : ℕ → Component → ℕ → Component
grow width c current = record c {
  size = c.size + 1;
  min_x = min c.min_x (current % width);
  max_x = max c.max_x (current % width);
  min_y = min c.min_y (current / width);
  max_y = max c.max_y (current / width);
}

abbrev pub width_of : Component → ℕ
width_of c = c.max_x - c.min_x + 1

abbrev pub height_of : Component → ℕ
height_of c = c.max_y - c.min_y + 1

-- A quotient of such numbers is at most 20 in floating point just when it is.
abbrev pub is_candidate : Component → Bool
is_candidate c =
    leb 6 (width_of c)
    && leb 6 (height_of c)
    && leb 12 c.size
    && (leb (width_of c) (20 * height_of c) && leb (height_of c) (20 * width_of c))

-- The variables of the loop.
pub record Scan : Type 0 where
  pub labels : ℕ → ℕ
  pub components : List Component
  pub component_count : ℕ
  pub dark_count : ℕ

abbrev pub add_candidate : Scan → Component → Recognized Scan
add_candidate s c =
    if is_candidate c
    then (if ltb max_candidates (suc (length s.components))
        then failed source_too_complex
        else done (record s { components = s.components ++ c ∷ [] }))
    else done s

abbrev pub add_component : Scan → (ℕ → ℕ) × List ℕ × Component → Recognized Scan
add_component s (labels, _, c) =
    add_candidate
      (record s {
        labels = labels;
        component_count = suc s.component_count;
        dark_count = s.dark_count + c.size;
      })
      c

module _ (source : PreparedLayoutSource) (threshold : ℕ) where
  -- Every pixel enters the queue once at most.
  unfoldable pub flood_from : ℕ → Scan → (ℕ → ℕ) × List ℕ × Component
  unfolding flood neighbours
  flood_from index s =
      let k = suc s.component_count in
      flood (is_dark source threshold) (neighbours source.width source.height) k (grow source.width)
        (length source.pixels) (mark s.labels index k) (index ∷ [])
        (component_at source.width k index)

  unfoldable pub scan_pixel : ℕ → Scan → Recognized Scan
  unfolding flood_from
  scan_pixel index s =
      if not (is_dark source threshold index) || not (s.labels index == 0)
      then done s
      else if ltb max_components (suc s.component_count)
      then failed source_too_complex
      else add_component s (flood_from index s)

  unfoldable pub scan_pixels : ℕ → ℕ → Scan → Recognized Scan
  unfolding scan_pixel
  scan_pixels zero index s = done s
  scan_pixels (suc rounds) index s = scan_pixel index s >>= λ s'. scan_pixels rounds (suc index) s'

  -- The labels and the components, before any shape is fitted.
  unfoldable pub find_components : Recognized Scan
  unfolding scan_pixels
  find_components =
      scan_pixels (length source.pixels) 0
        (record { labels = λ _. 0; components = []; component_count = 0; dark_count = 0 })
