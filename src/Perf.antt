-- ===== src/Perf.antt =====
-- 44_benchmarks_and_profiling/perf.go: the implementations of four jobs, slow and fast. What they use
-- of the packages strconv, fmt, strings and slices is a parameter.
pub mod Joins
pub mod Squares
pub mod Words
pub mod Lookups
mod Tests
