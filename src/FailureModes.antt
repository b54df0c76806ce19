-- ===== src/FailureModes.antt =====
-- workdir/internal/failuremodes: the estimators of one pod or workload, and the tracker that keeps
-- them and ranks what they report.
pub mod Estimate
pub mod Condition
pub mod Slopes
pub mod Saturation
pub mod Release
pub mod Divergence
pub mod Recurrence
pub mod Tracker
pub mod Examples
