-- ===== src/Defun.antt =====
-- The macro `#[defun]` (emacs-macros/src/func.rs): how it reads the signature of a function, and
-- what the code that it generates does.
pub mod Signature
pub mod Wrapper
pub mod Exporter
pub mod Entry
