-- ===== src/Lib.antt =====
-- The seat service keeps the seating plans of events: sections of a room, tables in the sections,
-- and seats, which guests or invitations hold. Clients change it by GraphQL mutations, which the
-- resolvers hand to the write services; a write service changes rows, leaves a row in the change
-- log, and for seats puts facts for the analytics service in an outbox table, which a publisher
-- sends. Messages of other services keep projections of roles, access, settings,
-- invitations and presence up to date.
--
-- Files, and the code that they model:
--   Base            tests, lists, integers and text that the models share
--   Meta            metadata of seats, tables and sections (src/utils/meta-defaults.ts)
--   Store           rows (prisma/schema.prisma), programs with errors and roll back, the statements
--                   on tables with their unique keys, foreign keys and cascades; what statements keep
--   Audit           logChange of src/layout/services/layout-write.service.ts and enqueue of
--                   src/analytics/analytics-outbox.service.ts
--   AutoOrder       src/utils/auto-order.ts
--   Seat            src/seat/services/seat-write.service.ts: Edit (createSeat, updateSeat,
--                   deleteSeat), Assign (assignSeat), Guest (assignSeatToGuest), Unassign
--                   (unassignSeat, unassignSeatsByGuestId); Rivals, Claimed, Free, Loop, Sole
--                   and Outcome are about assignSeat, Held and Settled about assignSeatToGuest,
--                   Stuck about seats that nobody can take
--   Section, Table  src/section/services/section-write.service.ts and
--                   src/table/services/table-write.service.ts: Write and Rename; Section.Names is
--                   about the names of sections
--   Layout          src/layout/services/layout-write.service.ts and
--                   src/layout/utils/snapshot-serializer.ts: Plan (inputs of the generator), Versions
--                   (snapshots, saveLayoutVersion, undo, redo, restoreVersion), Edit (moves,
--                   deleteSeats), Copy (duplicateTable, cloneSection) and Generate (writeGeometry,
--                   autoGenerate, and src/handlers/event.handler.ts); Restore and Generated are about
--                   restored and generated layouts, Copies and Stranded about copies, History,
--                   Holders and Cleared about undo, redo and deletion
--   Geometry        src/layout/utils/geometry-engine.ts: Ids (texts of numbers), Places, Engine
--                   (generate), Enough and Counts (how much is generated)
--   Projections     src/handlers/event-role.handler.ts: Rows (the projections and their statements),
--                   Roles (the handlers), Access with Newest and Reorder (sequences of messages on
--                   access), Fresh (roles and owners), Deleted (events), Permissions
--                   (src/seat/services/seat-event-role-resolver.service.ts), Settings and Known
--                   (src/handlers/event-settings.handler.ts), Invitations
--                   (src/handlers/invitation-seating.handler.ts)
--   Presence        src/handlers/milestone.handler.ts: Milestone (the handler), Visits and Scans
--                   (what the rows say of a seat after a sequence of milestones)
--   Outbox          src/analytics/analytics-outbox.publisher.ts: Publish (publishReady and publish),
--                   Rows, Later and Pass (what a pass does to the rows)
--   ColorGroup      src/seat/services/color-group-matcher.service.ts: Matching (match and
--                   matchByInvitation) and Best; the projections it reads are a parameter
--   Authentication  src/handlers/authentication.handler.ts, and Ticket, on the seat of a ticket
--   LayoutImport    src/layout-import: Recognizer (recognizers/layout-recognizer.ts), Threshold,
--                   Components, Contour and Shapes (recognizers/raster-components.ts), Flood (their loop
--                   over connected pixels), Interpreter (recognizers/layout-interpreter.ts), Analysis
--                   (recognizers/geometry-layout.recognizer.ts, and the limit of
--                   layout-import.worker.ts), Contract (layout-import.contract.ts) and Upload
--                   (layout-import.service.ts: readImportRequest, and analyze with its slots)
--   Tests           sample data, and the theorems at concrete inputs
--
-- A program is a function from an environment (the tenant, and whether the analytics table accepts
-- a fact) and a database to a result and a database. An exception is an error value, and
-- `transaction` gives back the database it started on when its body ends in one. The generated
-- client is not code of the repository: the statements on the database follow
-- prisma/schema.prisma, a write that would break a unique key or a foreign key ends in an error.
--
-- Identifiers and clock readings are natural numbers, a fresh identifier is drawn from the
-- environment's supply (`new_id`). Coordinates, widths and rotations are integers that stand for
-- floating point numbers, 0 for 0; their arithmetic, and the comparison of JSON documents by which
-- moves log what changed, are operations of the environment, of which nothing is assumed. A call
-- reads the clock once, also a pass of the publisher; the broker is a parameter, of which nothing
-- is assumed. Transactions run one after another, so two that overlap are not modelled. Loops over
-- rows and parts are recursion on a list. The loop over connected pixels counts its rounds: it may make
-- as many as there are pixels, which is enough, since a pixel enters the queue once at most.
--
-- An uploaded file is the number of its bytes, and an aborted upload an error that comes in place of a
-- part or a chunk. Whether the database client takes `null` for a JSON column, or throws, is a parameter.
-- A key `__proto__` of metadata is left out of account, and the counts of a generated layout are not
-- negative. Recognition compares quotients of whole numbers by their products. The libraries of the
-- authentication handler (decryption, cache, broker, JSON) are a parameter, and may throw.
--
-- Not modelled: the resolvers and the read services, which pass on arguments and rows; of layout import,
-- the decoding of images and PDFs, the controller, the worker's thread and messages, and time-outs; the
-- set-up of the server, and the generated client.
pub mod Base
pub mod Meta
pub mod Store
pub mod Audit
pub mod Seat
pub mod AutoOrder
pub mod Section
pub mod Table
pub mod Projections
pub mod Outbox
pub mod ColorGroup
pub mod Layout
mod Tests
pub mod Presence
pub mod Geometry
pub mod LayoutImport
pub mod Authentication
