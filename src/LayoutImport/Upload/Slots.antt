-- ===== src/LayoutImport/Upload/Slots.antt =====
-- layout-import/layout-import.service.ts, analyze: the number of imports that run at once. An import
-- takes a slot when its request comes and gives it back when it ends, however it ends; requests come
-- and end in any order. The ids of the running imports tell them apart.
use omnixys_seat_service.Base.{
  ℕ, suc, ◌+◌, ◌-◌, ◌≤◌, ◌≡◌, refl, ◌↔◌, inl, inr, List, [], ◌∷◌, ◌==◌, ==_iff, leb, if◌then◌else◌,
  length, arith, Bool-cases,
}
use omnixys_seat_service.LayoutImport.Contract.{concurrency}
use omnixys_seat_service.LayoutImport.Flood.Defs.{Has}
use omnixys_seat_service.LayoutImport.Upload.{Outcome, got, request_error}

pub record Imports : Type 0 where
  pub active : ℕ
  pub running : List ℕ

-- `if (this.active >= concurrency) throw …; this.active++`
unfoldable pub begin : ℕ → Imports → Outcome Imports
begin id s =
    if leb concurrency s.active
    then request_error "IMPORT_BUSY" 429
    else got (record { active = s.active + 1; running = id ∷ s.running })

abbrev pub without : ℕ → List ℕ → List ℕ
without id [] = []
without id (x ∷ rest) = if x == id then rest else x ∷ without id rest

-- `finally { this.active-- }`
unfoldable pub release : ℕ → Imports → Imports
release id s = record { active = s.active - 1; running = without id s.running }

-- Requests that come and imports that end, in any order.
pub data Run : Imports → Type 0 where
  idle : Run (record { active = 0; running = [] })
  begins : {s t : Imports} → Run s → (id : ℕ) → begin id s ≡ got t → Run t
  ends : {s : Imports} → Run s → (id : ℕ) → Has id s.running → Run (release id s)

length-without : (id : ℕ) (xs : List ℕ) → Has id xs → suc (length (without id xs)) ≡ length xs
length-without id [] h = absurd h
length-without id (x ∷ xs) (inl e) = ground (arith, ==_iff x id)
length-without id (x ∷ xs) (inr h) = ground (arith, length-without id xs h)

record IsSlotted (s : Imports) : Type 0 where
  counted : s.active ≡ length s.running
  bounded : s.active ≤ concurrency

begin-IsSlotted : (id : ℕ) (s t : Imports) → IsSlotted s → begin id s ≡ got t → IsSlotted t
unfolding begin
begin-IsSlotted id s t h e = ground arith

release-IsSlotted :
    (id : ℕ) (s : Imports) → IsSlotted s → Has id s.running → IsSlotted (release id s)
unfolding release
release-IsSlotted id s h m = omega (arith, h.counted, h.bounded, length-without id s.running m)

Run-IsSlotted : {s : Imports} → Run s → IsSlotted s
Run-IsSlotted idle = omega arith
Run-IsSlotted (begins {s} {t} r id e) = begin-IsSlotted id s t (Run-IsSlotted r) e
Run-IsSlotted (ends {s} r id m) = release-IsSlotted id s (Run-IsSlotted r) m

busy_iff :
    (id : ℕ) (s : Imports)
    → IsSlotted s
    → (begin id s ≡ request_error "IMPORT_BUSY" 429) ↔ (length s.running ≡ 2)
unfolding begin
busy_iff id s h = elim (Bool-cases (leb concurrency s.active)) [
  | inl full ↦ rw full ((λ _. ground (arith, h.counted, h.bounded)), (λ _. refl))
  | inr room ↦ rw room ((λ e. cc), (λ e. absurd (ground (arith, h.counted))))
]

-- Whatever requests came and imports ended before, in whatever order: the counter is the number of the
-- running imports, which is two at most; a request is refused as busy exactly when two are running;
-- and when a running import has ended, the next request is admitted.
pub Run-slots :
    (s : Imports) (next : ℕ)
    → Run s
    → (s.active ≡ length s.running)
      × (length s.running ≤ 2)
      × ((begin next s ≡ request_error "IMPORT_BUSY" 429) ↔ (length s.running ≡ 2))
      × ((id : ℕ) → Has id s.running → (t : Imports) × (begin next (release id s) ≡ got t))
unfolding begin release
Run-slots s next r =
    let h = Run-IsSlotted r in
    (
      h.counted,
      omega (arith, h.counted, h.bounded),
      busy_iff next s h,
      λ id m. (
        record { active = s.active - 1 + 1; running = next ∷ without id s.running },
        ground (arith, h.counted, h.bounded, length-without id s.running m),
      ),
    )
