-- ===== src/Examples.antt =====
-- The code on concrete inputs.
pub mod Assembler
pub mod Insert
pub mod Scheduler
pub mod Clickhouse
pub mod PostgresV1
pub mod Statistics
pub mod Integrity
pub mod Scanner
pub mod Emulator
