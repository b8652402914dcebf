-- ===== src/Geometry/Enough.antt =====
-- The numbers of places for tables and seats (layout/utils/geometry-engine.ts).
use omnixys_seat_service.Base.{
  ℕ, zero, suc, ◌+◌, ◌-◌, ◌≤◌, ◌≡◌, refl, ◌∙◌, String, str_eq, List, [], ◌∷◌, ◌++◌, length, map,
  arith, Bool-cases, inl, inr,
}
use omnixys_seat_service.Store.Exec.{Floats}
use omnixys_seat_service.Layout.Plan.{ceil_div}
use omnixys_seat_service.Geometry.Places.{
  Place, tabulate, get_table_positions, seat_positions, top_count,
}

length-tabulate : {A : Type 0} (f : ℕ → A) (first n : ℕ) → length (tabulate f first n) ≡ n
length-tabulate f first zero = refl
length-tabulate f first (suc n) = omega (arith, length-tabulate f (suc first) n)

pub length-append {ℓ} : {A : Type ℓ} (xs ys : List A) → length (xs ++ ys) ≡ length xs + length ys
length-append [] ys = omega arith
length-append (x ∷ xs) ys = omega (arith, length-append xs ys)

pub length-map {ℓ κ} :
    {A : Type ℓ} {B : Type κ} (f : A → B) (xs : List A) → length (map f xs) ≡ length xs
length-map f [] = refl
length-map f (x ∷ xs) = omega (arith, length-map f xs)

two_rows : {A : Type 0} (f g : ℕ → A) (a b : ℕ) → length (tabulate f 0 a ++ tabulate g 0 b) ≡ a + b
two_rows f g a b =
    length-append (tabulate f 0 a) (tabulate g 0 b)
    ∙ omega (arith, length-tabulate f 0 a, length-tabulate g 0 b)

-- Every shape has a place for each of its tables, the horseshoe perhaps more.
pub positions-enough :
    (f : Floats) (n : ℕ) (shape : String) → n ≤ length (get_table_positions f n shape)
unfolding get_table_positions
positions-enough f n shape = elim (Bool-cases (str_eq shape "grid")) [
  | inl e ↦ rw e (whole _)
  | inr e ↦ elim (Bool-cases (str_eq shape "u")) [
    | inl d ↦ rw (e, d) (rows _ _ (ceil_div n 2))
    | inr d ↦ elim (Bool-cases (str_eq shape "horseshoe")) [
      | inl c ↦ rw (e, d, c) (rows _ _ (top_count f n))
      | inr c ↦ elim (Bool-cases (str_eq shape "vip")) [
        | inl b ↦ rw (e, d, c, b) (whole _)
        | inr b ↦ rw (e, d, c, b) (whole _)
      ]
    ]
  ]
]
  where
    whole : (g : ℕ → Place) → n ≤ length (tabulate g 0 n)
    whole g = omega (arith, length-tabulate g 0 n)

    rows : (g h : ℕ → Place) (a : ℕ) → n ≤ length (tabulate g 0 a ++ tabulate h 0 (n - a))
    rows g h a = omega (arith, two_rows g h a (n - a))

pub seats-enough :
    (f : Floats) (count : ℕ) (shape facing : String)
    → length (seat_positions f count shape facing) ≡ count
unfolding seat_positions
seats-enough f count shape facing = elim (Bool-cases (str_eq shape "grid")) [
  | inl e ↦ rw e (two_rows _ _ (ceil_div count 2) (count - ceil_div count 2) ∙ omega arith)
  | inr e ↦ elim (Bool-cases (str_eq shape "row")) [
    | inl d ↦ rw (e, d) (length-tabulate _ 0 count)
    | inr d ↦ rw (e, d) (length-tabulate _ 0 count)
  ]
]
