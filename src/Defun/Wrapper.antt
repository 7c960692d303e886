-- ===== src/Defun/Wrapper.antt =====
-- The wrapper that `gen_wrapper` generates: it decodes the arguments from left to right, runs the
-- function, and encodes its result, while the guards of its references are held.
pub mod Restores
pub mod Ends
pub mod Settled
pub mod Called
pub mod Calm
pub mod Held
pub mod Exclusive
use emacs_module_rs.Base.{ℕ, Option, none, some, List, [], ◌∷◌, ◌++◌}
use emacs_module_rs.Machine.{Address, Emacs, Act, ◌>>=◌}
use emacs_module_rs.Value.{Value}
use emacs_module_rs.Convert.{FromLisp, IntoLisp}
use emacs_module_rs.UserPtr.{Transfer, box_into_lisp, into_ref, into_ref_mut, release}
use emacs_module_rs.Func.{CallArgs, get_arg}
use emacs_module_rs.Defun.Signature.{UserPtr, Arg, env, val, owned, ref, ref_mut}

-- What the function is given: `&**env`, a value, or a reference into a `RefCell`.
pub data Passed (T : Type 0) : Type 0 where
  env_ref : Passed T
  by_value : T → Passed T
  borrowed borrowed_mut : Address → Passed T

-- The types of the function: how the argument at a place is converted when it is owned, and the
-- `RefCell` that it points to when it is a reference.
pub record ArgTypes (S T : Type 0) : Type 0 where
  pub from : ℕ → FromLisp S T
  pub cell : ℕ → Transfer

-- The guard is dropped when its scope is left, by a value, an error or a panic.
abbrev pub guarded : {S A : Type 0} → Address → Act S A → Act S A
guarded cell m w = ((m w).0, release cell (m w).1)

module _ {S T : Type 0} ⦃E : Emacs S⦄ (types : ArgTypes S T) (args : CallArgs)
    (body : List (Passed T) → Act S Value) where
  -- One binding, and the rest of the wrapper in its scope. `body` is `call_inner`, or
  -- anything else that is run on the arguments.
  unfoldable pub bind_args : List Arg → List (Passed T) → Act S Value
  unfolding get_arg into_ref into_ref_mut
  bind_args [] passed = body passed
  bind_args (env ∷ rest) passed = bind_args rest (passed ++ env_ref ∷ [])
  bind_args (val owned nth _ ∷ rest) passed = do
    v ← get_arg args nth
    x ← types.from nth v
    bind_args rest (passed ++ by_value x ∷ [])
  bind_args (val ref nth _ ∷ rest) passed = do
    v ← get_arg args nth
    cell ← into_ref (types.cell nth) v
    guarded cell (bind_args rest (passed ++ borrowed cell ∷ []))
  bind_args (val ref_mut nth _ ∷ rest) passed = do
    v ← get_arg args nth
    cell ← into_ref_mut (types.cell nth) v
    guarded cell (bind_args rest (passed ++ borrowed_mut cell ∷ []))

  unfoldable pub wrapper : List Arg → Act S Value
  unfolding bind_args
  wrapper signature = bind_args signature []

-- What the wrapper does with the function's output: `Box::new` of the output, in the container that
-- the option `user_ptr` names, gives a box at an address of the allocator's choice.
pub record OutputTypes (S O : Type 0) : Type 0 where
  pub into_lisp : IntoLisp S O
  pub boxed : UserPtr → O → Act S Address
  pub tag : UserPtr → Transfer

module _ {S O : Type 0} ⦃E : Emacs S⦄ (output_types : OutputTypes S O) where
  -- `maybe_embed` and `into_lisp`
  unfoldable pub output_into_lisp : Option UserPtr → O → Act S Value
  unfolding box_into_lisp
  output_into_lisp none output = output_types.into_lisp output
  output_into_lisp (some user_ptr) output = do
    raw ← output_types.boxed user_ptr output
    box_into_lisp (output_types.tag user_ptr) raw

  -- The rest of the wrapper after the bindings.
  unfoldable pub call_inner :
      {T : Type 0} → Option UserPtr → (List (Passed T) → Act S O) → List (Passed T) → Act S Value
  unfolding output_into_lisp
  call_inner user_ptr inner passed = do output ← inner passed; output_into_lisp user_ptr output
