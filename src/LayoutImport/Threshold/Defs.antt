-- ===== src/LayoutImport/Threshold/Defs.antt =====
-- layout-import/recognizers/raster-components.ts, binaryThreshold: Otsu's threshold of an image.
use omnixys_seat_service.Base.{
  ℕ, zero, suc, ◌+◌, ◌-◌, ◌*◌, min, Bool, not, ◌||◌, Option, none, some, List, [], ◌∷◌, ◌==◌, ltb,
  leb, if◌then◌else◌, length,
}
use Prim.Native.Nat.{max}
use omnixys_seat_service.Base.Int.{ℤ}
use omnixys_seat_service.LayoutImport.Recognizer.{
  PreparedLayoutSource, invalid_raster, unsupported_contrast, Recognized, done, failed, Numbers,
}

abbrev pub max_pixels : ℕ
max_pixels = 1600 * 1600

-- Dimensions are whole numbers and pixels are bytes here.
abbrev pub is_invalid : PreparedLayoutSource → Bool
is_invalid source =
    ltb source.width 1
    || ltb source.height 1
    || ltb 1600 (max source.width source.height)
    || ltb max_pixels (source.width * source.height)
    || not (source.channels == 1)
    || not (length source.pixels == source.width * source.height)

-- The variables of the first loop; the histogram is a function of the value.
pub record Tally : Type 0 where
  pub histogram : ℕ → ℕ
  pub sum : ℕ
  pub minimum : ℕ
  pub maximum : ℕ

abbrev pub tally_pixel : Tally → ℕ → Tally
tally_pixel t value = record {
  histogram = λ v. if v == value then t.histogram v + 1 else t.histogram v;
  sum = t.sum + value;
  minimum = min t.minimum value;
  maximum = max t.maximum value;
}

unfoldable pub tally : Tally → List ℕ → Tally
tally t [] = t
tally t (value ∷ rest) = tally (tally_pixel t value) rest

-- The variables of the second loop.
pub record Search : Type 0 where
  pub weight : ℕ
  pub partial_sum : ℕ
  pub best_variance : ℤ
  pub threshold : ℕ

module _ (numbers : Numbers) where
  -- `weight * remaining * difference * difference`
  unfoldable pub variance : ℕ → ℕ → ℕ → ℕ → ℤ
  variance sum partial_sum weight remaining =
      let n = numbers.floats in
      let difference =
        n.sub (n.div (n.of_ℕ partial_sum) (n.of_ℕ weight))
          (n.div (n.of_ℕ (sum - partial_sum)) (n.of_ℕ remaining)) in
      n.mul (n.mul (n.of_ℕ (weight * remaining)) difference) difference

  abbrev pub keep_better : ℕ → ℤ → Search → Search
  keep_better value v s =
      if numbers.lt s.best_variance v then record s { best_variance = v; threshold = value } else s

  -- A weight or a rest of 0 goes on to the next value.
  unfoldable pub weigh : Tally → ℕ → ℕ → Search → Search
  weigh t size value s =
      let weight = s.weight + t.histogram value in
      let partial_sum = s.partial_sum + value * t.histogram value in
      let remaining = size - weight in
      let s' = record s { weight = weight; partial_sum = partial_sum } in
      if weight == 0 || remaining == 0
      then s'
      else keep_better value (variance t.sum partial_sum weight remaining) s'

  unfoldable pub search_from : Tally → ℕ → ℕ → ℕ → Search → Search
  unfolding weigh
  search_from t size zero value s = s
  search_from t size (suc rounds) value s =
      search_from t size rounds (suc value) (weigh t size value s)

  -- The best variance starts at -1.
  abbrev pub first_search : Tally → Search
  first_search t = record {
    weight = 0;
    partial_sum = 0;
    best_variance = numbers.floats.neg (numbers.floats.of_ℕ 1);
    threshold = t.minimum;
  }

  unfoldable pub otsu : Tally → ℕ → ℕ
  unfolding search_from
  otsu t size = (search_from t size (t.maximum - t.minimum) t.minimum (first_search t)).threshold

  abbrev pub choose : Tally → ℕ → Recognized (Option ℕ)
  choose t size =
      if ltb (t.maximum - t.minimum) 24
      then (if leb 224 t.minimum then done none else failed unsupported_contrast)
      else done (some (otsu t size))

  unfoldable pub binary_threshold : PreparedLayoutSource → Recognized (Option ℕ)
  unfolding tally
  binary_threshold source =
      if is_invalid source
      then failed invalid_raster
      else choose
          (tally (record { histogram = λ _. 0; sum = 0; minimum = 255; maximum = 0 }) source.pixels)
          (length source.pixels)
