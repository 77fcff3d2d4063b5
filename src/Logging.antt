-- ===== src/Logging.antt =====
-- internal/logging: the log that the admin console shows.
pub mod Recorder
