-- ===== src/Lib.antt =====
-- The `emacs` crate of emacs-module-rs, by which Rust code runs as a dynamic module of Emacs,
-- and the macros of `emacs-macros` that generate a module's glue. Rust code reaches Emacs only
-- through the C function table `emacs_env`, and Emacs reaches Rust code only through the
-- functions that a module exports and its entry point. What has to be right is the boundary: an
-- error or panic of Rust must become a non-local exit of Emacs and no unwinding may reach C; a
-- non-local exit of Emacs must become a Rust error; values must stay protected from the garbage
-- collector while Rust holds them and be freed after; and Rust data that Lisp holds must come
-- back as its own type, with no aliased mutable reference, and be freed once.
--
-- The parts, by the files here and the code they model:
--
-- - Machine: what the code runs on. Machine/Table is the function table
--   (emacs-module/src/emacs-module.rs) as the record `Emacs`, since the Emacs process is no part
--   of the repository; what the manual documents of its functions is in the records `ExitLaws`
--   and `RefLaws`, and beside their users in `IntegerLaws`, `TextLaws`, `UserPtrLaws` and
--   `VectorLaws`. Machine/Fault has `ErrorKind` and the other errors, and the payloads of panics
--   (src/error.rs). Machine/State has the state of the process, the outcome of a call (a value,
--   `Err`, or a panic), and the operators of the effect.
-- - Exit: the raw calls of src/macros.rs, `handle_exit` and `non_local_exit_*` of src/error.rs.
-- - Value, Global, Statics, Call: src/value.rs, src/global.rs, src/symbol.rs, src/subr.rs and
--   src/call.rs with the generated impls of emacs-macros/src/lisp_args.rs. An argument of a
--   tuple, and a callable, is the conversion that gives it.
-- - Convert, Convert/Integer, Convert/Text: src/types/mod.rs, float.rs, integer.rs and
--   string.rs.
-- - UserPtr: src/types/user_ptr.rs, and `into_ref` and `into_ref_mut` of src/value.rs with the
--   flags of the `RefCell`s that they borrow.
-- - Memory: the boxes of the Rust heap that Lisp holds, and their finalizers
--   (src/types/user_ptr.rs). Memory/Steps has the steps of the module, of Lisp and of the
--   collector; Memory/Users what the manuals say of the platform (`MemoryLaws`).
-- - Vector: src/types/vector.rs.
-- - Signal: the rest of src/error.rs: `maybe_exit`, `handle_panic`, `signal`, `define_error`.
-- - Lifetime: src/env.rs, the life of an `Env`: it collects the references that protect values,
--   and frees them when it is dropped. Lifetime/Rooted relates a value to the reference that
--   protects it.
-- - Func: src/func.rs: exported functions, `CallEnv` and `handle_call`. Func/Defining has what
--   the manual says of symbols and their function cells (`SymbolLaws`).
-- - Init: src/init.rs, and the initializers that `global_refs!`, `use_symbols!` and
--   `define_errors!` register. Init/References accounts for the references that loading makes,
--   and Defun/Exporter/Loading for those of a module that the macros make.
-- - Names: `lisp_pkg` and `lisp_path` of src/init.rs, `lisp_name` and `concat` of
--   emacs-macros/src/util.rs.
-- - Defun/Signature, Defun/Wrapper, Defun/Exporter, Defun/Entry: emacs-macros/src/func.rs,
--   module.rs and lib.rs. What reads the source of a function is modelled as it is, on the parts
--   of the syntax that it looks at; of what prints code, the printed code is modelled.
-- - Reloading: rs-module/src/lib.rs, the reloading of modules, with libloading as a parameter.
-- - TestModule: test-module/src, a module written with the crate: its functions as the wrappers
--   call them. TestModule/State has the effect of code that reads and writes boxes,
--   TestModule/RefCells/Counting what an increment should do, and TestModule/Errors/Catching has
--   `catch` as Lisp sees it.
-- - Maps: the `HashMap` of the standard library.
-- - Unwinding, Frames: which operations cannot panic in a loaded module, and which leave the
--   statics and the borrows as they are. Defun/Wrapper/Called joins these for a whole call of an
--   exported function.
-- - Base, Tests: shared helpers, and a small Emacs on which the theorems are applied.
--
-- How they interact. Emacs calls `emacs_module_init` (`Init.module_init`), which makes an `Env`
-- and runs `initialize`: the initializers set the statics, the errors of the crate and of the
-- module are defined, and the hook of `#[module]` (`Defun.Exporter.auto_init`) sets the prefix,
-- runs the exporters and provides the feature. An exporter calls `Func.export_function`, and
-- what it exports is `Func.extern_lambda`: a new `Env`, `handle_call` of the wrapper
-- (`Defun.Wrapper.wrapper`), and the drop of the `Env`. Every call of Emacs goes through
-- `Exit.raw_call`. A value that goes to Lisp as a user pointer is moved into a box
-- (`Memory.embed`); the wrappers borrow it back (`UserPtr.into_ref`), and when Emacs discards
-- the user pointer it calls `Memory.finalize`.
--
-- Choices. The effect keeps the state when a call fails or panics, as it does in the program.
-- Integers of each width are the integers they stand for, with the wrap-around of `as` written
-- out. Texts are their bytes. Three loops run on fuel: `collect` and `mapc_from` over a vector,
-- for which any fuel above the length is shown to be enough, and the digits of a `usize`, for
-- which twenty are enough. A `RefCell` is its address and its borrow flag. A box is the type
-- that it was made for and what it holds, and what is undefined behaviour on it is a fault. A
-- type is known by its `TypeId`, and `finalize::<T>` by its address, which two types may share,
-- since Rust may merge functions that are the same: the function at an address is then the
-- finalizer of each, and the tag does not tell them apart. When no memory is left Rust aborts,
-- so that an allocation gives an address that is free. Where Emacs finds garbage is not said:
-- the collector may discard any object, in any order. Arithmetic on `i64` panics on overflow or
-- wraps around, by the overflow checks of the build.
--
-- Not modelled: the C bindings, their build scripts and the layout tests, which are generated;
-- `Mutex` and `RwLock` as containers, and the locks of the lists of initializers, since loading
-- is sequential; the printing of a panic that cannot be signaled, and of the test module; the
-- parsing and the printing of tokens, where the parts of the syntax that the macros look at and
-- the items that they print stand for them; the change of case and the UTF-8 decoding of the
-- standard library, which are parameters; the text of pointers in messages.
pub mod Base
pub mod Call
pub mod Convert
pub mod Defun
pub mod Exit
pub mod Frames
pub mod Func
pub mod Global
pub mod Init
pub mod Lifetime
pub mod Machine
pub mod Maps
pub mod Memory
pub mod Names
pub mod Reloading
pub mod Signal
pub mod Statics
pub mod TestModule
pub mod Tests
pub mod Unwinding
pub mod UserPtr
pub mod Value
pub mod Vector
