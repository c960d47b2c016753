-- ===== src/Create/Setup/Missed.antt =====
-- Where setupCreateJob sets the total of MidPoint too high: templates with repeatEveryNIterations.
use kube_burner.Prelude.{true}
use kube_burner.Executor.{World, Event, stage_notified, Event, stage_notified}

-- jobExecutor.stageNotifier = measurementsInstance, behind the setup.
abbrev pub with_notifier : World → World
with_notifier w = record w { executor = record w.executor { has_notifier = true } }
