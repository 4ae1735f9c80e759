-- ===== src/Model.antt =====
-- The API's data and the methods on it (pkg/api/v1/testkube): statuses, executions of a test,
-- executions of a test suite.
pub mod Status
pub mod SuiteStatus
pub mod Data
pub mod ExecutionResult
pub mod Execution
pub mod Suite
pub mod StatusLists
pub mod Repository
mod Tests
