-- ===== src/Model/Repository.antt =====
-- pkg/repository: what the repositories of executions return.
-- What `Get` of a repository returns.
pub data Fetched (A : Type 0) : Type 0 where
  found : A → Fetched A
  no_documents get_failed : Fetched A
