-- ===== src/Layout/Cleared.antt =====
-- deleteSeats of layout/services/layout-write.service.ts: what is left of the events, and of others.
use omnixys_seat_service.Base.{
  subst, sym, Bool, true, false, not, ◌≡◌, refl, List, [], ◌∷◌, ◌==◌, select, All, Bool-cases, inl,
  inr, not-eq-true, ==_iff,
}
use omnixys_seat_service.Store.Rows.{Uuid, Db}
use omnixys_seat_service.Store.Exec.{ok, ◌>>=◌, transaction}
use omnixys_seat_service.Store.Unique.{All-weaken, select-passes}
use omnixys_seat_service.Store.Unique.{All-select}
use omnixys_seat_service.Store.Sets.{delete_seats, delete_tables, delete_sections}
use omnixys_seat_service.Layout.Edit.{is_in, delete_events}

-- No row of the six tables belongs to one of the events.
pub record IsCleared (events : List Uuid) (db : Db) : Type 0 where
  pub seats : All (λ r. is_in events r.event_id ≡ false) db.seats
  pub tables : All (λ r. is_in events r.event_id ≡ false) db.tables
  pub sections : All (λ r. is_in events r.event_id ≡ false) db.sections
  pub assignment_logs : All (λ r. is_in events r.event_id ≡ false) db.assignment_logs
  pub change_logs : All (λ r. is_in events r.event_id ≡ false) db.change_logs
  pub layout_versions : All (λ r. is_in events r.event_id ≡ false) db.layout_versions

pub selected {ℓ} :
    {A : Type ℓ} (p : A → Bool) (xs : List A) → All (λ x. p x ≡ false) (select (λ x. not (p x)) xs)
selected p xs =
    All-weaken _ _ (select (λ x. not (p x)) xs) (λ x h. not-eq-true _ h)
      (select-passes (λ x. not (p x)) xs)

-- The rows of an event that the filter leaves alone.
untouched {ℓ} :
    {A : Type ℓ} (q p : A → Bool) (xs : List A)
    → ((x : A) → q x ≡ true → p x ≡ false)
    → select q (select (λ x. not (p x)) xs) ≡ select q xs
untouched q p [] h = refl
untouched q p (x ∷ xs) h = elim (Bool-cases (q x)) [
  | inl e ↦ rw (e, h x e, e, untouched q p xs h) refl
  | inr e ↦ elim (Bool-cases (p x)) [
    | inl d ↦ rw (e, d) (untouched q p xs h)
    | inr d ↦ rw (e, d, e) (untouched q p xs h)
  ]
]

-- Deleting at least one event succeeds and leaves no seat, table, section, log or version of the
-- events, and the logs and versions of an event that is not among them as they were.
pub delete_events-IsCleared :
    (first event : Uuid) (rest : List Uuid) (db : Db)
    → is_in (first ∷ rest) event ≡ false
    → let events = first ∷ rest in
      let after = (delete_events events db).1 in
      ((delete_events events db).0 ≡ ok tt)
      × IsCleared events after
      × (select (λ r. r.event_id == event) after.change_logs
          ≡ select (λ r. r.event_id == event) db.change_logs)
      × (select (λ r. r.event_id == event) after.layout_versions
          ≡ select (λ r. r.event_id == event) db.layout_versions)
      × (select (λ r. r.event_id == event) after.assignment_logs
          ≡ select (λ r. r.event_id == event) db.assignment_logs)
unfolding delete_events ◌>>=◌ transaction delete_seats delete_tables delete_sections
delete_events-IsCleared first event rest db n = (
  refl,
  record {
    seats =
        All-select _ _ _ _ (λ s q _. q)
          (All-select _ _ _ _ (λ s q _. q)
            (selected (λ r. is_in (first ∷ rest) r.event_id) db.seats));
    tables =
        All-select _ _ _ _ (λ s q _. q) (selected (λ r. is_in (first ∷ rest) r.event_id) db.tables);
    sections = selected (λ r. is_in (first ∷ rest) r.event_id) db.sections;
    assignment_logs = selected (λ r. is_in (first ∷ rest) r.event_id) db.assignment_logs;
    change_logs = selected (λ r. is_in (first ∷ rest) r.event_id) db.change_logs;
    layout_versions = selected (λ r. is_in (first ∷ rest) r.event_id) db.layout_versions;
  },
  untouched _ _ db.change_logs (λ r. other r.event_id n),
  untouched _ _ db.layout_versions (λ r. other r.event_id n),
  untouched _ _ db.assignment_logs (λ r. other r.event_id n),
)
  where
    other :
        (id : Uuid)
        → is_in (first ∷ rest) event ≡ false
        → (id == event) ≡ true
        → is_in (first ∷ rest) id ≡ false
    other id n h = subst (λ k. is_in (first ∷ rest) k ≡ false) (sym ((==_iff id event).0 h)) n
