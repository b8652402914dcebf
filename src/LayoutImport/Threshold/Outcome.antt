-- ===== src/LayoutImport/Threshold/Outcome.antt =====
-- How binaryThreshold ends, whatever the arithmetic of the variances.
use omnixys_seat_service.Base.{
  ℕ, zero, suc, ◌+◌, ◌-◌, ◌*◌, ◌≤◌, ◌<◌, ◌≡◌, refl, ◌∙◌, ◌⊎◌, inl, inr, true, false, Option, none,
  some, List, [], ◌∷◌, ltb, leb, length, arith, Bool-cases, All, min,
}
use Prim.Native.Nat.{max}
use omnixys_seat_service.LayoutImport.Recognizer.{
  PreparedLayoutSource, invalid_raster, source_too_complex, unsupported_contrast, Recognized, done,
  failed, Numbers,
}
use omnixys_seat_service.LayoutImport.Flood.Defs.{Has}
use omnixys_seat_service.LayoutImport.Threshold.Defs.{
  is_invalid, Tally, tally_pixel, tally, Search, weigh, search_from, first_search, otsu, choose,
  binary_threshold,
}

-- A raster that recognition accepts.
pub record IsRaster (source : PreparedLayoutSource) : Type 0 where
  pub wide : 1 ≤ source.width
  pub narrow : source.width ≤ 1600
  pub tall : 1 ≤ source.height
  pub short : source.height ≤ 1600
  pub grey : source.channels ≡ 1
  pub full : length source.pixels ≡ source.width * source.height

accepted-IsRaster : (source : PreparedLayoutSource) → is_invalid source ≡ false → IsRaster source
accepted-IsRaster source e = ground arith

area_bound : (w h : ℕ) → w ≤ 1600 → h ≤ 1600 → w * h ≤ 1600 * 1600
area_bound w h a b = grind arith

rejected-IsRaster : (source : PreparedLayoutSource) → is_invalid source ≡ true → ¬ IsRaster source
rejected-IsRaster source e h = ground (arith, area_bound source.width source.height)

-- The least and the greatest of some values and one more.
record IsTally (low high : ℕ) (xs : List ℕ) (t : Tally) : Type 0 where
  least : All (λ v. t.minimum ≤ v) xs
  least_of : t.minimum ≤ low
  least_is : (t.minimum ≡ low) ⊎ Has t.minimum xs
  greatest : All (λ v. v ≤ t.maximum) xs
  greatest_of : high ≤ t.maximum
  greatest_is : (t.maximum ≡ high) ⊎ Has t.maximum xs

min-cases : (a b : ℕ) → (min a b ≡ a) ⊎ (min a b ≡ b)
min-cases a b = omega arith

max-cases : (a b : ℕ) → (max a b ≡ a) ⊎ (max a b ≡ b)
max-cases a b = omega arith

tally-IsTally : (t : Tally) (xs : List ℕ) → IsTally t.minimum t.maximum xs (tally t xs)
unfolding tally
tally-IsTally t [] = record {
  least = tt;
  least_of = omega arith;
  least_is = inl refl;
  greatest = tt;
  greatest_of = omega arith;
  greatest_is = inl refl;
}
tally-IsTally t (x ∷ xs) =
    let h = tally-IsTally (tally_pixel t x) xs in
    record {
      least = (omega (arith, h.least_of), h.least);
      least_of = omega (arith, h.least_of);
      least_is = elim h.least_is [
        | inl e ↦ elim (min-cases t.minimum x) [ inl w ↦ inl (e ∙ w) | inr w ↦ inr (inl (e ∙ w)) ]
        | inr w ↦ inr (inr w)
      ];
      greatest = (omega (arith, h.greatest_of), h.greatest);
      greatest_of = omega (arith, h.greatest_of);
      greatest_is = elim h.greatest_is [
        | inl e ↦ elim (max-cases t.maximum x) [ inl w ↦ inl (e ∙ w) | inr w ↦ inr (inl (e ∙ w)) ]
        | inr w ↦ inr (inr w)
      ];
    }

module _ (numbers : Numbers) (t : Tally) (size lo hi : ℕ) where
  weigh-within :
      (value : ℕ) (s : Search)
      → lo ≤ value
      → value < hi
      → lo ≤ s.threshold
      → s.threshold < hi
      → (lo ≤ (weigh numbers t size value s).threshold)
        × ((weigh numbers t size value s).threshold < hi)
  unfolding weigh
  weigh-within value s a b c d = ground arith

  search_from-within :
      (rounds value : ℕ) (s : Search)
      → lo ≤ value
      → value + rounds ≤ hi
      → lo ≤ s.threshold
      → s.threshold < hi
      → (lo ≤ (search_from numbers t size rounds value s).threshold)
        × ((search_from numbers t size rounds value s).threshold < hi)
  unfolding search_from
  search_from-within zero value s a b c d = (c, d)
  search_from-within (suc rounds) value s a b c d =
      let w = weigh-within value s a (omega arith) c d in
      search_from-within rounds (suc value) (weigh numbers t size value s) (omega arith)
        (omega arith) w.0 w.1

-- The extremes of the bytes of an image.
record HasExtremes (xs : List ℕ) (t : Tally) : Type 0 where
  least : All (λ v. t.minimum ≤ v) xs
  least_is : Has t.minimum xs
  greatest : All (λ v. v ≤ t.maximum) xs
  greatest_is : Has t.maximum xs

start : Tally
start = record { histogram = λ _. 0; sum = 0; minimum = 255; maximum = 0 }

tally-HasExtremes :
    (xs : List ℕ) → 1 ≤ length xs → All (λ v. v < 256) xs → HasExtremes xs (tally start xs)
unfolding tally start
tally-HasExtremes [] le b = absurd (omega arith)
tally-HasExtremes (x ∷ xs) le b =
    let h = tally-IsTally (tally_pixel start x) xs in
    record {
      least = (omega (arith, h.least_of), h.least);
      least_is = elim h.least_is [ inl e ↦ inl (omega arith) | inr w ↦ inr w ];
      greatest = (omega (arith, h.greatest_of), h.greatest);
      greatest_is = elim h.greatest_is [ inl e ↦ inl (omega arith) | inr w ↦ inr w ];
    }

-- Every two pixels differ by less than 24.
abbrev pub IsFlat : List ℕ → Type 0
IsFlat xs = All (λ v. All (λ u. u < v + 24) xs) xs

-- A pixel at most at the threshold, and one above it that differs from it by 24 at least.
pub record IsSplit (xs : List ℕ) (threshold : ℕ) : Type 0 where
  pub dark : ℕ
  pub light : ℕ
  pub has_dark : Has dark xs
  pub has_light : Has light xs
  pub under : dark ≤ threshold
  pub over : threshold < light
  pub apart : dark + 24 ≤ light

-- What each way to end says of the image.
abbrev pub IsThreshold : PreparedLayoutSource → Recognized (Option ℕ) → Type 0
IsThreshold source (failed invalid_raster) = ¬ IsRaster source
IsThreshold source (failed unsupported_contrast) =
    IsRaster source × IsFlat source.pixels × ((v : ℕ) × Has v source.pixels × (v < 224))
IsThreshold source (failed source_too_complex) = ⊥
IsThreshold source (done none) =
    IsRaster source × IsFlat source.pixels × All (λ v. 224 ≤ v) source.pixels
IsThreshold source (done (some threshold)) = IsRaster source × IsSplit source.pixels threshold

All-weaken : {P Q : ℕ → Type 0} (xs : List ℕ) → ((v : ℕ) → P v → Q v) → All P xs → All Q xs
All-weaken [] f h = tt
All-weaken (x ∷ xs) f h = (f x h.0, All-weaken xs f h.1)

IsFlat-intro : (xs : List ℕ) (t : Tally) → HasExtremes xs t → t.maximum - t.minimum < 24 → IsFlat xs
IsFlat-intro xs t h lt =
    All-weaken xs (λ v lo. All-weaken xs (λ u hi. omega arith) h.greatest) h.least

otsu-IsSplit :
    (numbers : Numbers) (xs : List ℕ) (t : Tally)
    → HasExtremes xs t
    → 24 ≤ t.maximum - t.minimum
    → IsSplit xs (otsu numbers t (length xs))
unfolding otsu
otsu-IsSplit numbers xs t h le =
    let w =
      search_from-within numbers t (length xs) t.minimum t.maximum (t.maximum - t.minimum) t.minimum
        (first_search numbers t) (omega arith) (omega arith) (omega arith) (omega arith) in
    record {
      dark = t.minimum;
      light = t.maximum;
      has_dark = h.least_is;
      has_light = h.greatest_is;
      under = w.0;
      over = w.1;
      apart = omega arith;
    }

choose-IsThreshold :
    (numbers : Numbers) (source : PreparedLayoutSource) (t : Tally)
    → IsRaster source
    → HasExtremes source.pixels t
    → IsThreshold source (choose numbers t (length source.pixels))
choose-IsThreshold numbers source t r h = elim (Bool-cases (ltb (t.maximum - t.minimum) 24)) [
  | inl flat ↦ elim (Bool-cases (leb 224 t.minimum)) [
    | inl bright ↦
        rw (flat, bright)
          (
            r,
            IsFlat-intro source.pixels t h (ground arith),
            All-weaken source.pixels (λ v lo. ground arith) h.least,
          )
    | inr dim ↦
        rw (flat, dim)
          (r, IsFlat-intro source.pixels t h (ground arith), (t.minimum, h.least_is, ground arith))
  ]
  | inr apart ↦ rw apart (r, otsu-IsSplit numbers source.pixels t h (ground arith))
]

raster_pixels : (source : PreparedLayoutSource) → IsRaster source → 1 ≤ length source.pixels
raster_pixels source r = rw r.full (grind arith)

-- For pixels that are bytes, the threshold of an image is refused as invalid just where it is no
-- raster of at most 1,600 by 1,600 grey pixels; it is refused for its contrast where all pixels are
-- within 24 and one is under 224; there is none where they are within 24 and none is under 224; and
-- otherwise some pixel is at most at it, and another is above it and differs from that by 24 at least.
pub binary_threshold-IsThreshold :
    (numbers : Numbers) (source : PreparedLayoutSource)
    → All (λ v. v < 256) source.pixels
    → IsThreshold source (binary_threshold numbers source)
unfolding binary_threshold start
binary_threshold-IsThreshold numbers source b = elim (Bool-cases (is_invalid source)) [
  | inl bad ↦ rw bad (rejected-IsRaster source bad)
  | inr fine ↦
      let r = accepted-IsRaster source fine in
      rw fine (
        choose-IsThreshold numbers source (tally start source.pixels) r
          (tally-HasExtremes source.pixels (raster_pixels source r) b))
]
