-- ===== src/Ipdb.antt =====
-- ipdb.hpp and manage_ipdb.hpp: the reader of the IP location file.
pub mod Split
pub mod Columns
pub mod City
pub mod BaseStation
pub mod District
pub mod Idc
pub mod Lines
pub mod Reader
pub mod Search
pub mod Mapped
pub mod Find
pub mod Record
pub mod Lookup
pub mod Utf8
pub mod Manage
mod Tests
mod ReaderTests
mod ManageTests
