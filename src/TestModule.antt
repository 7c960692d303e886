-- ===== src/TestModule.antt =====
-- The test module (test-module/src): a module written with the crate. Its functions are modelled as
-- the wrappers call them, on converted arguments.
pub mod State
pub mod Vectors
pub mod HashMap
pub mod Errors
pub mod Calls
pub mod Basics
pub mod Root
pub mod Lifetimes
pub mod RefCells
