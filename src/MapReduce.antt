-- ===== src/MapReduce.antt =====
-- ALL_CODE_350/starter-1/mr and mr-main: the coordinator of map and reduce tasks, its workers, and the
-- sequential program that does the same job.
pub mod Coordinator
pub mod Worker
pub mod Sequential
pub mod Keys
pub mod Job
pub mod Apps
mod Tests
