-- ===== src/Triggers.antt =====
-- pkg/triggers: test triggers, which run tests when a Kubernetes resource changes.
pub mod Status
pub mod Scraper
pub mod Trigger
pub mod Service
pub mod Matcher
pub mod Probes
pub mod Match
pub mod Executor
pub mod Lease
pub mod Watcher
pub mod Diff
pub mod Pods
pub mod Handlers
mod Tests
mod MatchTests
mod LeaseTests
mod ExecutorTests
mod HandlerTests
