-- ===== src/Init.antt =====
-- init.c: the copy of the firmware that is patched and started, the hook for the tasks that are replaced, and the
-- start-up and shutdown.
pub mod Restart
pub mod Hook
pub mod Startup
pub mod Started
mod Tests
