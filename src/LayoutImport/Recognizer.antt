-- ===== src/LayoutImport/Recognizer.antt =====
-- layout-import/recognizers/layout-recognizer.ts: the raster, and how an analysis ends; and the
-- arithmetic that the analysis uses.
use omnixys_seat_service.Base.{ℕ, Bool, List}
use omnixys_seat_service.Base.Int.{ℤ}
use omnixys_seat_service.Store.Exec.{Floats}

-- A greyscale image, a byte for a pixel, row by row.
pub record PreparedLayoutSource : Type 0 where
  pub pixels : List ℕ
  pub width : ℕ
  pub height : ℕ
  pub channels : ℕ

pub data RecognitionError : Type 0 where
  invalid_raster source_too_complex unsupported_contrast : RecognitionError

pub data Recognized (A : Type 0) : Type 0 where
  done : A → Recognized A
  failed : RecognitionError → Recognized A

infixl 5 ◌>>=◌
abbrev pub ◌>>=◌ : {A B : Type 0} → Recognized A → (A → Recognized B) → Recognized B
done a >>= f = f a
failed e >>= f = failed e

-- Floating point arithmetic, comparisons (both false where one side is no number), squares, absolute
-- values and `Math.hypot` included.
pub record Numbers : Type 0 where
  pub floats : Floats
  pub lt : ℤ → ℤ → Bool
  pub le : ℤ → ℤ → Bool
  pub square : ℤ → ℤ
  pub abs : ℤ → ℤ
  pub hypot : ℤ → ℤ → ℤ
