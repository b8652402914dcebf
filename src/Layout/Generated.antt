-- ===== src/Layout/Generated.antt =====
-- The generator of layouts (layout/services/layout-write.service.ts): what a failed writing leaves.
use omnixys_seat_service.Base.{false, ◌≡◌, refl, some, ◌==◌, All}
use omnixys_seat_service.Store.Rows.{Uuid, AutoGenerateLayoutInput, Db}
use omnixys_seat_service.Store.Exec.{
  Error, Result, ok, err, Env, Exec, or_raise, transaction, settle, ◌>>=◌,
}
use omnixys_seat_service.Store.Sets.{delete_seats, delete_tables, delete_sections}
use omnixys_seat_service.Layout.Cleared.{selected}
use omnixys_seat_service.Store.Unique.{All-select}
use omnixys_seat_service.Geometry.Engine.{GeometryOutput, generate}
use omnixys_seat_service.Layout.Generate.{write_rows, write_geometry, wipe, auto_generate_layout}

-- Nothing of the event's layout.
pub record IsWiped (event : Uuid) (db : Db) : Type 0 where
  pub seats : All (λ r. (r.event_id == event) ≡ false) db.seats
  pub tables : All (λ r. (r.event_id == event) ≡ false) db.tables
  pub sections : All (λ r. (r.event_id == event) ≡ false) db.sections

wipe-IsWiped :
    (event : Uuid) (db : Db)
    → (wipe event db ≡ (ok tt, (wipe event db).1)) × IsWiped event (wipe event db).1
unfolding wipe ◌>>=◌ delete_seats delete_tables delete_sections
wipe-IsWiped event db = (
  refl,
  record {
    seats =
        All-select _ _ _ _ (λ s q _. q)
          (All-select _ _ _ _ (λ s q _. q) (selected (λ r. r.event_id == event) db.seats));
    tables = All-select _ _ _ _ (λ s q _. q) (selected (λ r. r.event_id == event) db.tables);
    sections = selected (λ r. r.event_id == event) db.sections;
  },
)

rolled_back :
    {A : Type 0} (m : Exec A) (s : Db) (x : Error)
    → (transaction m s).0 ≡ err x
    → transaction m s ≡ (err x, s)
unfolding transaction
rolled_back {A = A} m s x h = settled (m s) h
  where
    settled : (r : Result A × Db) → (settle r s).0 ≡ err x → settle r s ≡ (err x, s)
    settled (ok a, t) k = cc
    settled (err y, t) k = rw k refl

-- If the writing of the generated layout fails, autoGenerate fails, and the event is left without any
-- seat, table or section: what was there before is gone.
pub auto_generate_layout-IsWiped :
    (e : Env) (input : AutoGenerateLayoutInput) (actor : Uuid) (db : Db) (g : GeometryOutput)
    (x : Error)
    → generate e.floats input.adaptive_radius input.sections ≡ some g
    → (write_geometry e input.event_id g (wipe input.event_id db).1).0 ≡ err x
    → ((auto_generate_layout e input actor db).0 ≡ err x)
      × IsWiped input.event_id (auto_generate_layout e input actor db).1
unfolding auto_generate_layout ◌>>=◌ or_raise write_geometry
auto_generate_layout-IsWiped e input actor db g x h k =
    let w = wipe-IsWiped input.event_id db in
    rw (w.0, h, rolled_back (write_rows e input.event_id g) (wipe input.event_id db).1 x k)
      (refl, w.1)
