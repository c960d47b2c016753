-- ===== src/Jobs.antt =====
-- pkg/burner/delete.go, patch.go and read.go, newObject of pkg/burner/object.go, and the running of
-- such jobs in pkg/burner/utils.go: Run, runSequential, runParallel, getItemListForObject.
pub mod Setup
pub mod Handlers
pub mod Sequential
pub mod Parallel
pub mod Does
pub mod Orders
