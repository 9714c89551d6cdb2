-- ===== src/Gc.antt =====
-- src/app/tasks/gc_task.h and gc_task.cpp: the collection of objects that uploads left behind. The
-- report's counters are numbers; the metrics, which only repeat the report, are left out. A run is
-- one step here: the lock lets no second one in, and what other calls do meanwhile is not modelled.
pub mod Tasks
pub mod Scans
pub mod Safety
pub mod References
pub mod Orphans
pub mod Idle
pub mod DryRun
