-- ===== src/Create.antt =====
-- pkg/burner/create.go: creation jobs.
pub mod Namespaces
pub mod Objects
pub mod Setup
pub mod Requests
pub mod Default
pub mod Grouped
pub mod Run
pub mod Churn
