-- ===== src/LayoutImport/Interpreter/Relations.antt =====
-- layout-import/recognizers/layout-interpreter.ts: area, diameter, contains, similarSize, bodyGap.
use omnixys_seat_service.Base.{Bool, ◌&&◌, Option, some, if◌then◌else◌}
use omnixys_seat_service.Base.Int.{ℤ}
use omnixys_seat_service.LayoutImport.Recognizer.{Numbers}
use omnixys_seat_service.LayoutImport.Contour.{DetectedShape, round, oval, ratio}
use omnixys_seat_service.LayoutImport.Shapes.{ShapeCandidate}

abbrev pub is_rounded : Option DetectedShape → Bool
is_rounded (some round) = Bool.true
is_rounded (some oval) = Bool.true
is_rounded _ = Bool.false

module _ (n : Numbers) where
  abbrev pub area : ShapeCandidate → ℤ
  area shape = n.floats.mul shape.width shape.height

  abbrev pub diameter : ShapeCandidate → ℤ
  diameter shape = n.floats.max shape.width shape.height

  abbrev pub half : ℤ → ℤ
  half a = n.floats.div a (n.floats.of_ℕ 2)

  unfoldable pub contains : ShapeCandidate → ShapeCandidate → Bool
  contains outer inner =
      let dx = n.floats.add (n.abs (n.floats.sub outer.x inner.x)) (half inner.width) in
      let dy = n.floats.add (n.abs (n.floats.sub outer.y inner.y)) (half inner.height) in
      if is_rounded outer.shape
      then n.lt
          (n.floats.add (n.square (n.floats.div dx (half outer.width)))
            (n.square (n.floats.div dy (half outer.height))))
          (n.floats.of_ℕ 1)
      else n.lt dx (half outer.width) && n.lt dy (half outer.height)

  unfoldable pub similar_size : ShapeCandidate → ShapeCandidate → Bool
  similar_size a b =
      n.le (n.floats.max (n.floats.div a.width b.width) (n.floats.div b.width a.width))
        (ratio n 135 100)
      && n.le (n.floats.max (n.floats.div a.height b.height) (n.floats.div b.height a.height))
          (ratio n 135 100)

  unfoldable pub body_gap : ShapeCandidate → ShapeCandidate → ℤ
  body_gap table seat =
      let dx = n.abs (n.floats.sub table.x seat.x) in
      let dy = n.abs (n.floats.sub table.y seat.y) in
      let radius =
        n.hypot (n.floats.div dx (half table.width)) (n.floats.div dy (half table.height)) in
      if is_rounded table.shape
      then (if n.le radius (n.floats.of_ℕ 1)
          then n.floats.infinity
          else n.floats.mul (n.hypot dx dy)
              (n.floats.sub (n.floats.of_ℕ 1) (n.floats.div (n.floats.of_ℕ 1) radius)))
      else if n.le dx (half table.width) && n.le dy (half table.height)
      then n.floats.infinity
      else n.hypot (n.floats.max (n.floats.of_ℕ 0) (n.floats.sub dx (half table.width)))
          (n.floats.max (n.floats.of_ℕ 0) (n.floats.sub dy (half table.height)))
