-- ===== src/Scheduler.antt =====
-- pkg/scheduler: how tests and test suites are executed.
pub mod Steps
pub mod Runs
pub mod Merge
pub mod Requests
pub mod Options
pub mod Secrets
pub mod Starts
pub mod SuiteStarts
mod Tests
mod StartTests
mod SuiteTests
