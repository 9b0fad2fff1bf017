-- ===== src/Runner.antt =====
-- src/main.cpp: the benchmark program.
pub mod Options
pub mod Program
