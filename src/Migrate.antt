-- ===== src/Migrate.antt =====
-- cmd/migrate/main.go: the migrations of the database, and what is shown of them.
pub mod Split
pub mod Statements
pub mod Pieces
pub mod Run
pub mod Versions
pub mod Loaded
pub mod Scripts
pub mod Order
