-- ===== src/Defun/Wrapper/Settled.antt =====
-- The references that a wrapper holds: its own steps protect nothing, and free nothing.
use emacs_module_rs.Base.{ℕ, zero, suc, List, [], ◌∷◌, ◌++◌, get_elem?, Option-cases, inl, inr}
use emacs_module_rs.Machine.{
  Raw, Address, Emacs, ExitLaws, RefLaws, Borrow, shared, exclusive, World, Act,
}
use emacs_module_rs.Value.{Value}
use emacs_module_rs.UserPtr.{
  Transfer, is_finalizer, get_user_ptr, get_user_finalizer, get_raw_pointer, ref_from_lisp,
  into_ref, into_ref_mut, try_borrow, try_borrow_mut, set_borrow,
}
use emacs_module_rs.Func.{CallArgs, get_arg}
use emacs_module_rs.Lifetime.Balance.{
  IsSettled, Settles, Settles-pure, Settles-fail, Settles-panic, Settles-bind, Settles-raw_call,
}
use emacs_module_rs.Lifetime.Settling.{KeepingCalls}
use emacs_module_rs.Lifetime.Settling.Calls.{Settles-if}
use emacs_module_rs.Defun.Signature.{Arg, env, val, owned, ref, ref_mut}
use emacs_module_rs.Defun.Wrapper.{
  Passed, env_ref, by_value, borrowed, borrowed_mut, ArgTypes, guarded, bind_args,
}

module _ {S : Type 0} ⦃E : Emacs S⦄ {refs : Raw → S → ℕ} where
  -- The flags of the cells are no references.
  set_borrow-IsSettled :
      (base : Raw → ℕ) (cell : Address) (b : Borrow) (w : World S)
      → IsSettled refs base w
      → IsSettled refs base (set_borrow cell b w)
  set_borrow-IsSettled base cell b w h = record {
    balanced = record { held = h.balanced.held };
    quiet = h.quiet;
  }

  Settles-guarded :
      {A : Type 0} (cell : Address) (m : Act S A) → Settles refs m → Settles refs (guarded cell m)
  Settles-guarded cell m k = record {
    at = λ base w h. set_borrow-IsSettled base cell _ (m w).1 (k.at base w h);
  }

  Settles-try_borrow : (cell : Address) (b : Borrow) → Settles refs (try_borrow cell b)
  Settles-try_borrow cell (shared n) = record {
    at = λ base w h. set_borrow-IsSettled base cell _ w h;
  }
  Settles-try_borrow cell exclusive = Settles-fail _

  Settles-try_borrow_mut : (cell : Address) (b : Borrow) → Settles refs (try_borrow_mut cell b)
  Settles-try_borrow_mut cell (shared zero) = record {
    at = λ base w h. set_borrow-IsSettled base cell _ w h;
  }
  Settles-try_borrow_mut cell (shared (suc n)) = Settles-fail _
  Settles-try_borrow_mut cell exclusive = Settles-fail _

  Settles-get_arg : (args : CallArgs) (i : ℕ) → Settles refs (get_arg args i)
  unfolding get_arg
  Settles-get_arg args i = elim (Option-cases (get_elem? args i)) [
    | inl e ↦ rw e (Settles-panic _)
    | inr (x, e) ↦ rw e (Settles-pure _)
  ]

module _ {S : Type 0} ⦃E : Emacs S⦄ {refs : Raw → S → ℕ} (exits : ExitLaws S)
    (laws : RefLaws S refs) (calls : KeepingCalls refs) where
  Settles-ref : (ty : Transfer) (v : Value) → Settles refs (ref_from_lisp ty v)
  unfolding ref_from_lisp get_raw_pointer get_user_finalizer get_user_ptr
  Settles-ref ty v =
      Settles-bind (get_user_finalizer v) _
        (Settles-raw_call exits laws (E.get_user_finalizer v.raw) (calls.get_user_finalizer v.raw))
        (λ fin.
          Settles-if (is_finalizer ty fin) _ _
            (Settles-raw_call exits laws (E.get_user_ptr v.raw) (calls.get_user_ptr v.raw))
            (Settles-fail _))

  Settles-into_ref : (ty : Transfer) (v : Value) → Settles refs (into_ref ty v)
  unfolding into_ref
  Settles-into_ref ty v =
      Settles-bind (ref_from_lisp ty v) _ (Settles-ref ty v)
        (λ cell. record { at = λ base w h. (Settles-try_borrow cell (w.borrows cell)).at base w h })

  Settles-into_ref_mut : (ty : Transfer) (v : Value) → Settles refs (into_ref_mut ty v)
  unfolding into_ref_mut
  Settles-into_ref_mut ty v = Settles-bind (ref_from_lisp ty v) _ (Settles-ref ty v) (λ cell.
      record { at = λ base w h. (Settles-try_borrow_mut cell (w.borrows cell)).at base w h })

  module _ {T : Type 0} (types : ArgTypes S T) (args : CallArgs)
      (body : List (Passed T) → Act S Value)
      (from_settles : (n : ℕ) (v : Value) → Settles refs (types.from n v))
      (body_settles : (ps : List (Passed T)) → Settles refs (body ps)) where
    pub Settles-bind_args :
        (signature : List Arg) (ps : List (Passed T))
        → Settles refs (bind_args types args body signature ps)
    unfolding bind_args
    Settles-bind_args [] ps = body_settles ps
    Settles-bind_args (env ∷ rest) ps = Settles-bind_args rest (ps ++ env_ref ∷ [])
    Settles-bind_args (val owned nth _ ∷ rest) ps =
        Settles-bind (get_arg args nth) _ (Settles-get_arg args nth) (λ v.
          Settles-bind (types.from nth v) _ (from_settles nth v)
            (λ x. Settles-bind_args rest (ps ++ by_value x ∷ [])))
    Settles-bind_args (val ref nth _ ∷ rest) ps =
        Settles-bind (get_arg args nth) _ (Settles-get_arg args nth) (λ v.
          Settles-bind (into_ref (types.cell nth) v) _ (Settles-into_ref (types.cell nth) v)
            (λ c. Settles-guarded c _ (Settles-bind_args rest (ps ++ borrowed c ∷ []))))
    Settles-bind_args (val ref_mut nth _ ∷ rest) ps =
        Settles-bind (get_arg args nth) _ (Settles-get_arg args nth) (λ v.
          Settles-bind (into_ref_mut (types.cell nth) v) _ (Settles-into_ref_mut (types.cell nth) v)
            (λ c. Settles-guarded c _ (Settles-bind_args rest (ps ++ borrowed_mut c ∷ []))))
