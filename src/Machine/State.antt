-- ===== src/Machine/State.antt =====
-- The state that the library's code shares, and the effect in which it runs.
use emacs_module_rs.Base.{ℕ, Bool, Option, List}
use emacs_module_rs.Machine.Text.{Bytes}
use emacs_module_rs.Machine.Table.{Raw, Address}
use emacs_module_rs.Machine.Fault.{Error, Payload}

-- The address of a `static` that holds a `OnceGlobalRef`.
abbrev pub Static : Type 0
Static = ℕ

-- The flag of a `RefCell`: `shared n` while `n` guards read it, none for `shared 0`.
pub data Borrow : Type 0 where
  shared : ℕ → Borrow
  exclusive : Borrow

-- The Emacs state behind `Env.raw`, the field `Env.protected` of the current `Env`, and the crate's
-- statics: the cells of the global references, `HAS_FIXED_GC_BUG_31238`, `__PREFIX__` and
-- `__MOD_IN_NAME__`; and of the Rust heap the flags of the `RefCell`s, by address.
pub record World (S : Type 0) : Type 0 where
  pub emacs : S
  pub protected : Option (List Raw)
  pub globals : Static → Option Raw
  pub has_fixed_gc_bug : Option Bool
  pub prefix : Bytes × Bytes
  pub mod_in_name : Bool
  pub borrows : Address → Borrow

-- How a call ends: with a value, with `Err`, or with an unwinding panic.
pub data Outcome (A : Type 0) : Type 0 where
  ok : A → Outcome A
  err : Error → Outcome A
  panicked : Payload → Outcome A

-- A call may end badly after it has changed the state, so the state always comes back.
abbrev pub Act : Type 0 → Type 0 → Type 0
Act S A = World S → Outcome A × World S

module _ {S A : Type 0} where
  abbrev pub pure : A → Act S A
  pure a w = (ok a, w)

  abbrev pub fail : Error → Act S A
  fail e w = (err e, w)

  abbrev pub panic : Payload → Act S A
  panic p w = (panicked p, w)

  abbrev pub gets : (World S → A) → Act S A
  gets f w = (ok (f w), w)

module _ {S A B : Type 0} where
  abbrev pub continue : Outcome A → (A → Act S B) → Act S B
  continue (ok a) f = f a
  continue (err e) f = fail e
  continue (panicked p) f = panic p

  infixl 5 ◌>>=◌ ◌>>◌
  -- The operator `?`, and sequencing.
  abbrev pub ◌>>=◌ : Act S A → (A → Act S B) → Act S B
  ◌>>=◌ m f w = continue (m w).0 f (m w).1

  abbrev pub ◌>>◌ : Act S A → Act S B → Act S B
  m >> n = m >>= λ _. n

-- A `Result` as a value, which `match` takes apart.
pub data Result (A : Type 0) : Type 0 where
  success : A → Result A
  failure : Error → Result A

-- `std::thread::Result`, what `catch_unwind` gives.
pub data Thread (A : Type 0) : Type 0 where
  finished : A → Thread A
  unwound : Payload → Thread A

abbrev pub as_result : {A : Type 0} → Outcome A → Outcome (Result A)
as_result (ok a) = ok (success a)
as_result (err e) = ok (failure e)
as_result (panicked p) = panicked p

abbrev pub as_thread : {A : Type 0} → Outcome A → Outcome (Thread A)
as_thread (ok a) = ok (finished a)
as_thread (err e) = err e
as_thread (panicked p) = ok (unwound p)

module _ {S A : Type 0} where
  -- The call without `?`: its `Result` is a value.
  abbrev pub attempt : Act S A → Act S (Result A)
  attempt m w = (as_result (m w).0, (m w).1)

  -- `panic::catch_unwind`.
  abbrev pub catch_unwind : Act S A → Act S (Thread A)
  catch_unwind m w = (as_thread (m w).0, (m w).1)
