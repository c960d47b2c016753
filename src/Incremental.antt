-- ===== src/Incremental.antt =====
-- pkg/burner/incremental.go: incremental load.
pub mod Calculator
pub mod Run
