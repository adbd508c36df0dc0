-- ===== src/Monitor.antt =====
-- src/monitor_history.h and src/monitor.cpp: what the web interface's chart of a pad is made of.
pub mod History
pub mod Record
pub mod HitInfo
