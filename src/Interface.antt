-- ===== src/Interface.antt =====
-- What the program takes from crates outside the repository, as records of operations and laws.
pub mod DashMap
