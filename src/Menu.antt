-- ===== src/Menu.antt =====
-- internal/menu: categories, dishes and their options, and the recycle bin.
pub mod Rows
pub mod Categories
pub mod Options
pub mod Dishes
pub mod Lists
pub mod Recycle
pub mod Tidy
pub mod File
pub mod Import
pub mod Keeps
pub mod Created
pub mod Imports
pub mod History
