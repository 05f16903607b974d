-- ===== src/Anomalies.antt =====
-- monitoring/src/detectors/anomaly-detector.ts.
pub mod State
pub mod Checks
pub mod Windows
pub mod Alerts
mod Tests
