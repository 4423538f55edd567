-- ===== src/Examples.antt =====
-- Runs of the modelled code and each theorem at a concrete input.
mod FixtureRuns
mod EventRuns
mod IntegrityRuns
mod RecoveryRuns
mod VideoRuns
mod CollectorRuns
mod MonitorRuns
mod SelectionRuns
mod VisionRuns
mod PresentationRuns
mod WorkflowRuns
