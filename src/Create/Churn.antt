-- ===== src/Create/Churn.antt =====
-- pkg/burner/create.go: the churning of a creation job, by namespaces or by objects.
pub mod Deletion
pub mod Window
pub mod Namespaces
pub mod Objects
pub mod Run
