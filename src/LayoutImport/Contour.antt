-- ===== src/LayoutImport/Contour.antt =====
-- layout-import/recognizers/raster-components.ts, fitContour: which shape a component fits.
use omnixys_seat_service.Base.{
  ℕ, zero, suc, ◌+◌, ◌-◌, ◌*◌, ◌/◌, Bool, true, not, ◌&&◌, ◌||◌, Option, none, some, List, [], ◌∷◌,
  ◌==◌, ltb, if◌then◌else◌,
}
use Prim.Native.Nat.{◌%◌, max}
use omnixys_seat_service.Base.Int.{ℤ}
use omnixys_seat_service.LayoutImport.Recognizer.{Numbers}
use omnixys_seat_service.LayoutImport.Flood.Defs.{mark, flood}
use omnixys_seat_service.LayoutImport.Components.{Component, width_of, height_of}

pub data DetectedShape : Type 0 where
  round rectangle oval circle : DetectedShape

-- `shape` is left out where no shape fits.
pub record Fit : Type 0 where
  pub shape : Option DetectedShape
  pub quality : ℤ

-- `for (let y …) for (let x …)`: the body gets `x` and `y`.
module _ {S : Type 0} (body : ℕ → ℕ → S → S) where
  abbrev pub each_x : ℕ → ℕ → ℕ → S → S
  each_x zero x y s = s
  each_x (suc rounds) x y s = each_x rounds (suc x) y (body x y s)

  abbrev pub each_cell : ℕ → ℕ → ℕ → S → S
  each_cell width zero y s = s
  each_cell width (suc rounds) y s = each_cell width rounds (suc y) (each_x width 0 y s)

-- `mask[(y + 1) * stride + x + 1]`
abbrev pub cell : ℕ → ℕ → ℕ → ℕ
cell stride x y = (y + 1) * stride + x + 1

-- The component's own pixels have 1, a border around them 0.
unfoldable pub own_mask : Component → (ℕ → ℕ) → ℕ → ℕ → ℕ
own_mask c labels image_width =
    each_cell
      (λ x y mask.
        if labels ((y + c.min_y) * image_width + x + c.min_x) == c.id
        then mark mask (cell (width_of c + 2) x y) 1
        else mask)
      (width_of c) (height_of c) 0 (λ _. 0)

-- Left, right, up and down, inside of the mask.
abbrev pub mask_neighbours : ℕ → ℕ → ℕ → List (Option ℕ)
mask_neighbours stride height index =
    (if ltb 0 (index % stride) then some (index - 1) else none)
    ∷ (if ltb (index % stride) (stride - 1) then some (index + 1) else none)
    ∷ (if ltb 0 (index / stride) then some (index - stride) else none)
    ∷ (if ltb (index / stride) (height + 1) then some (index + stride) else none)
    ∷ []

abbrev pub no_body : Unit {0} → ℕ → Unit {0}
no_body s i = s

-- What is outside of the component gets 2.
unfoldable pub flood_exterior : Component → (ℕ → ℕ) → ℕ → ℕ
unfolding flood
flood_exterior c mask =
    let stride = width_of c + 2 in
    (flood (λ _. true) (mask_neighbours stride (height_of c)) 2 no_body (stride * (height_of c + 2))
      (mark mask 0 2) (0 ∷ []) tt).0

-- The sums over the filled cells.
pub record Moments : Type 0 where
  pub area : ℕ
  pub sum_x : ℤ
  pub sum_y : ℤ
  pub sum_xx : ℤ
  pub sum_yy : ℤ

-- How many cells are in both of two silhouettes, and in one of them at least.
pub record Overlap : Type 0 where
  pub ellipse_intersection : ℕ
  pub ellipse_union : ℕ
  pub moment_intersection : ℕ
  pub moment_union : ℕ

module _ (n : Numbers) where
  abbrev pub ratio : ℕ → ℕ → ℤ
  ratio a b = n.floats.div (n.floats.of_ℕ a) (n.floats.of_ℕ b)

  -- `x + 0.5`
  abbrev pub middle : ℕ → ℤ
  middle x = n.floats.add (n.floats.of_ℕ x) (ratio 1 2)

  abbrev pub is_filled : ℕ → (ℕ → ℕ) → ℕ → ℕ → Bool
  is_filled stride mask x y = not (mask (cell stride x y) == 2)

  unfoldable pub moments_of : Component → (ℕ → ℕ) → Moments
  moments_of c mask =
      each_cell
        (λ x y m.
          if is_filled (width_of c + 2) mask x y
          then record {
            area = m.area + 1;
            sum_x = n.floats.add m.sum_x (middle x);
            sum_y = n.floats.add m.sum_y (middle y);
            sum_xx = n.floats.add m.sum_xx (n.square (middle x));
            sum_yy = n.floats.add m.sum_yy (n.square (middle y));
          }
          else m)
        (width_of c) (height_of c) 0
        (record {
          area = 0;
          sum_x = n.floats.of_ℕ 0;
          sum_y = n.floats.of_ℕ 0;
          sum_xx = n.floats.of_ℕ 0;
          sum_yy = n.floats.of_ℕ 0;
        })

  abbrev pub mean : ℤ → ℕ → ℤ
  mean sum area = n.floats.div sum (n.floats.of_ℕ (max 1 area))

  -- `Math.max(1, 2 * Math.sqrt(Math.max(0, sumXX / Math.max(1, area) - centerX ** 2)))`
  abbrev pub radius : ℤ → ℕ → ℤ → ℤ
  radius squares area center = n.floats.max (n.floats.of_ℕ 1) (
      n.floats.mul (n.floats.of_ℕ 2) (
        n.floats.sqrt
          (n.floats.max (n.floats.of_ℕ 0) (n.floats.sub (mean squares area) (n.square center)))))

  -- `((x + 0.5 - centerX) / radiusX) ** 2 + ((y + 0.5 - centerY) / radiusY) ** 2 <= 1`
  abbrev pub in_ellipse : ℤ → ℤ → ℤ → ℤ → ℕ → ℕ → Bool
  in_ellipse center_x center_y radius_x radius_y x y =
      n.le
        (n.floats.add (n.square (n.floats.div (n.floats.sub (middle x) center_x) radius_x))
          (n.square (n.floats.div (n.floats.sub (middle y) center_y) radius_y)))
        (n.floats.of_ℕ 1)

  abbrev pub count_when : Bool → ℕ → ℕ
  count_when b k = if b then k + 1 else k

  unfoldable pub overlap_of : Component → (ℕ → ℕ) → Moments → Overlap
  overlap_of c mask m =
      let center_x = mean m.sum_x m.area in
      let center_y = mean m.sum_y m.area in
      let radius_x = radius m.sum_xx m.area center_x in
      let radius_y = radius m.sum_yy m.area center_y in
      let half_x = ratio (width_of c) 2 in
      let half_y = ratio (height_of c) 2 in
      each_cell
        (λ x y o.
          let filled = is_filled (width_of c + 2) mask x y in
          let ellipse = in_ellipse half_x half_y half_x half_y x y in
          let moment_ellipse = in_ellipse center_x center_y radius_x radius_y x y in
          record {
            ellipse_intersection = count_when (filled && ellipse) o.ellipse_intersection;
            ellipse_union = count_when (filled || ellipse) o.ellipse_union;
            moment_intersection = count_when (filled && moment_ellipse) o.moment_intersection;
            moment_union = count_when (filled || moment_ellipse) o.moment_union;
          })
        (width_of c) (height_of c) 0
        (record {
          ellipse_intersection = 0;
          ellipse_union = 0;
          moment_intersection = 0;
          moment_union = 0;
        })

  abbrev pub choose_shape : ℕ → ℕ → ℤ → ℤ → Fit
  choose_shape width height rectangle_fit ellipse_fit =
      let quality = n.floats.max rectangle_fit ellipse_fit in
      if n.lt quality (ratio 8 10)
        || n.lt (n.abs (n.floats.sub rectangle_fit ellipse_fit)) (ratio 6 100)
      then record { shape = none; quality = quality }
      else if n.lt ellipse_fit rectangle_fit
      then record { shape = some rectangle; quality = quality }
      else record {
        shape = some (
            if n.le (ratio 85 100) (ratio width height) && n.le (ratio width height) (ratio 118 100)
            then round
            else oval);
        quality = quality;
      }

  unfoldable pub fit_contour : Component → (ℕ → ℕ) → ℕ → Fit
  unfolding own_mask flood_exterior moments_of overlap_of
  fit_contour c labels image_width =
      let mask = flood_exterior c (own_mask c labels image_width) in
      let m = moments_of c mask in
      let o = overlap_of c mask m in
      choose_shape (width_of c) (height_of c) (ratio m.area (width_of c * height_of c)) (
        n.floats.max (ratio o.ellipse_intersection (max 1 o.ellipse_union))
          (ratio o.moment_intersection (max 1 o.moment_union)))
