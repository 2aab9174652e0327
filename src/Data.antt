-- ===== src/Data.antt =====
-- src/rex/data: the temporal split of the data, and the order in which its rows are read.
pub mod Arrays
pub mod Orders
pub mod Temporal
pub mod Groups
