-- ===== src/Builder.antt =====
-- src/build_tiny_engine.cpp: the program that builds an identity engine.
pub mod Options
pub mod Process
pub mod Program
