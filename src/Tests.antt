-- ===== src/Tests.antt =====
-- An Emacs to run the code on, and the theorems at concrete inputs.
mod Toy
mod Exits
mod Conversions
mod Modules
mod Memory
mod Embedding
mod Counting
mod Loading
mod Called
mod Collected
mod Calls
mod References
mod Defined
