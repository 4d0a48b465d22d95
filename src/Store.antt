-- ===== src/Store.antt =====
-- The database as the services see it: rows, tables, the session of a unit of work and the
-- repositories of app/db/repositories.py.
pub mod Rows
pub mod Table
pub mod Session
pub mod Atomic
pub mod Users
pub mod Items
pub mod Cats
pub mod Assets
pub mod Executions
pub mod Placements
pub mod Inversion
pub mod Claims
pub mod Uncommitted
pub mod Consistent
pub mod Stock
pub mod Counting
