-- ===== src/Geometry/Ids.antt =====
-- The ids of generated tables and seats (layout/utils/geometry-engine.ts): texts of numbers between
-- underscores, which generateSeats takes apart again.
use Prim.Native.Nat.{◌/◌, ◌%◌}
use Prim.Native.Char.{Char, code}
use Prim.Native.String.{◌++◌ as str_append}
use Prim.Native.String.append
use omnixys_seat_service.Base.{
  ℕ, zero, suc, ◌+◌, ◌-◌, ◌*◌, ◌≡◌, ◌<◌, refl, ap, ◌∙◌, false, String, List, [], ◌∷◌, ◌==◌, ltb,
  if◌then◌else◌, arith, Bool-cases, inl, inr,
}
use omnixys_seat_service.Base.Text.{decimal, digits, digit}

abbrev pub section_id : ℕ → String
section_id i = str_append "sec_" (decimal i)

abbrev pub table_id : ℕ → ℕ → String
table_id i t =
    str_append "tbl" (str_append "_" (str_append (decimal i) (str_append "_" (decimal t))))

abbrev pub seat_id : ℕ → ℕ → ℕ → String
seat_id i t s =
    str_append "seat_" (
      str_append (decimal i) (str_append "_" (str_append (decimal t) (str_append "_" (decimal s)))))

-- A character in front of the first part.
abbrev pub onto_first : Char → List String → List String
onto_first c [] = String.◌∷◌ c String.[] ∷ []
onto_first c (s ∷ rest) = String.◌∷◌ c s ∷ rest

-- `split('_')`
unfoldable pub split : String → List String
split String.[] = String.[] ∷ []
split (String.◌∷◌ c s) =
    let rest = split s in if code c == 95 then String.[] ∷ rest else onto_first c rest

-- `Number(text)`, of a text of digits, with what was read before it.
unfoldable pub read_number : ℕ → String → ℕ
read_number n String.[] = n
read_number n (String.◌∷◌ c s) = read_number (10 * n + (code c - 48)) s

abbrev pub to_number : String → ℕ
to_number s = read_number 0 s

read_number-append :
    (n : ℕ) (s t : String) → read_number n (str_append s t) ≡ read_number (read_number n s) t
unfolding read_number
read_number-append n String.[] t = rw (append.nil t) refl
read_number-append n (String.◌∷◌ c s) t =
    rw (append.cons c s t) (read_number-append (10 * n + (code c - 48)) s t)

-- No underscore.
abbrev pub IsPlain : String → Type 0
IsPlain String.[] = Unit
IsPlain (String.◌∷◌ c s) = ((code c == 95) ≡ false) × IsPlain s

-- A number below ten is one digit, which reads as it.
digit-reads : (d n : ℕ) → d < 10 → (read_number n (digit d) ≡ 10 * n + d) × IsPlain (digit d)
unfolding read_number digit
digit-reads zero n h = (refl, (refl, tt))
digit-reads (suc zero) n h = (refl, (refl, tt))
digit-reads (suc (suc zero)) n h = (refl, (refl, tt))
digit-reads (suc (suc (suc zero))) n h = (refl, (refl, tt))
digit-reads (suc (suc (suc (suc zero)))) n h = (refl, (refl, tt))
digit-reads (suc (suc (suc (suc (suc zero))))) n h = (refl, (refl, tt))
digit-reads (suc (suc (suc (suc (suc (suc zero)))))) n h = (refl, (refl, tt))
digit-reads (suc (suc (suc (suc (suc (suc (suc zero))))))) n h = (refl, (refl, tt))
digit-reads (suc (suc (suc (suc (suc (suc (suc (suc zero)))))))) n h = (refl, (refl, tt))
digit-reads (suc (suc (suc (suc (suc (suc (suc (suc (suc zero))))))))) n h = (refl, (refl, tt))
digit-reads (suc (suc (suc (suc (suc (suc (suc (suc (suc (suc d)))))))))) n h = absurd (omega arith)

IsPlain-append : (s t : String) → IsPlain s → IsPlain t → IsPlain (str_append s t)
IsPlain-append String.[] t h k = rw (append.nil t) k
IsPlain-append (String.◌∷◌ c s) t h k = rw (append.cons c s t) (h.0, IsPlain-append s t h.1 k)

digits-IsPlain : (f n : ℕ) → IsPlain (digits f n)
unfolding digits
digits-IsPlain zero n = tt
digits-IsPlain (suc f) n = elim (Bool-cases (ltb n 10)) [
  | inl e ↦ rw e (digit-reads n 0 (ground arith)).1
  | inr e ↦ rw e (
      IsPlain-append (digits f (n / 10)) (digit (n % 10)) (digits-IsPlain f (n / 10))
        (digit-reads (n % 10) 0 (omega arith)).1)
]

-- The fuel is enough if it exceeds the number.
digits-reads : (f n : ℕ) → n < f → to_number (digits f n) ≡ n
unfolding digits
digits-reads zero n h = absurd (omega arith)
digits-reads (suc f) n h = elim (Bool-cases (ltb n 10)) [
  | inl e ↦ rw e ((digit-reads n 0 (ground arith)).0 ∙ omega arith)
  | inr e ↦
      let ih = digits-reads f (n / 10) (ground arith) in
      rw e (
        read_number-append 0 (digits f (n / 10)) (digit (n % 10))
        ∙ ap (λ k. read_number k (digit (n % 10))) ih
        ∙ (digit-reads (n % 10) (n / 10) (omega arith)).0
        ∙ omega arith)
]

-- Reading a number that was written gives it back.
pub to_number-decimal : (n : ℕ) → to_number (decimal n) ≡ n
unfolding decimal
to_number-decimal n = digits-reads (suc n) n (omega arith)

decimal-IsPlain : (n : ℕ) → IsPlain (decimal n)
unfolding decimal
decimal-IsPlain n = digits-IsPlain (suc n) n

split-underscore : (t : String) → split (str_append "_" t) ≡ String.[] ∷ split t
unfolding split
split-underscore t = rw (append.cons _ String.[] t, append.nil t) refl

split-first : (s t : String) → IsPlain s → split (str_append s (str_append "_" t)) ≡ s ∷ split t
unfolding split
split-first String.[] t h = rw (append.nil (str_append "_" t)) (split-underscore t)
split-first (String.◌∷◌ c s) t h =
    rw (append.cons c s (str_append "_" t), h.0, split-first s t h.1) refl

split-last : (s : String) → IsPlain s → split s ≡ s ∷ []
unfolding split
split-last String.[] h = refl
split-last (String.◌∷◌ c s) h = rw (h.0, split-last s h.1) refl

-- The id of a table, split at its underscores, has the section's number and the table's as its second
-- and third part.
pub split-table_id : (i t : ℕ) → split (table_id i t) ≡ "tbl" ∷ decimal i ∷ decimal t ∷ []
split-table_id i t =
    split-first "tbl" (str_append (decimal i) (str_append "_" (decimal t)))
      (refl, (refl, (refl, tt)))
    ∙ ap (λ parts. "tbl" ∷ parts)
        (split-first (decimal i) (decimal t) (decimal-IsPlain i)
          ∙ ap (λ parts. decimal i ∷ parts) (split-last (decimal t) (decimal-IsPlain t)))
