-- ===== src/Concurrency.antt =====
-- Two programs of goroutines that share state, as step relations: the bounded queue of
-- 52_sync_cond/main.go and the worker pool of 31_demo_examples/demo3_worker_pool/main.go.
pub mod Queue
pub mod Pool
pub mod Accounts
pub mod Progress
mod Tests
