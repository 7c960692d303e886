-- ===== src/Defun/Wrapper/Ends.antt =====
-- How a wrapper may end: what its own steps panic with is signalled by handle_call.
use emacs_module_rs.Base.{
  ℕ, List, [], ◌∷◌, ◌++◌, Bool, true, false, if◌then◌else◌, get_elem?, Option-cases, inl, inr,
  arith,
}
use emacs_module_rs.Machine.{
  Address, Emacs, ExitLaws, Borrow, shared, exclusive, World, Outcome, ok, err, panicked, Act, pure,
  fail, continue, ◌>>=◌, Error,
}
use emacs_module_rs.Exit.{raw_call}
use emacs_module_rs.Exit.Laws.{handle_exit_outcome, result_of, Pending, quiet, signalled, thrown}
use emacs_module_rs.Value.{Value}
use emacs_module_rs.UserPtr.{
  Transfer, is_finalizer, get_user_ptr, get_user_finalizer, get_raw_pointer, ref_from_lisp,
  into_ref, into_ref_mut, try_borrow, try_borrow_mut,
}
use emacs_module_rs.Func.{CallArgs, get_arg}
use emacs_module_rs.Func.Boundary.{IsSignalableEnd}
use emacs_module_rs.Defun.Signature.{Arg, env, val, owned, ref, ref_mut}
use emacs_module_rs.Defun.Wrapper.{
  Passed, env_ref, by_value, borrowed, borrowed_mut, ArgTypes, guarded, bind_args,
}

-- However the action ends, it has not panicked with a `WrongTypeUserPtr`.
pub record EndsSignalable {S A : Type 0} (m : Act S A) : Type 0 where
  pub at : (w : World S) → IsSignalableEnd (m w).0

module _ {S A : Type 0} where
  pub EndsSignalable-pure : (a : A) → EndsSignalable (pure {S = S} a)
  EndsSignalable-pure a = record { at = λ w. tt }

  pub EndsSignalable-fail : (e : Error) → EndsSignalable (fail {S = S} {A = A} e)
  EndsSignalable-fail e = record { at = λ w. tt }

  EndsSignalable-if :
      (b : Bool) (m n : Act S A)
      → EndsSignalable m
      → EndsSignalable n
      → EndsSignalable (if b then m else n)
  EndsSignalable-if true m n h k = h
  EndsSignalable-if false m n h k = k

  EndsSignalable-guarded :
      (cell : Address) (m : Act S A) → EndsSignalable m → EndsSignalable (guarded cell m)
  EndsSignalable-guarded cell m k = record { at = k.at }

module _ {S A B : Type 0} where
  EndsSignalable-continue :
      (o : Outcome A) (f : A → Act S B) (w : World S)
      → ((a : A) → EndsSignalable (f a))
      → IsSignalableEnd o
      → IsSignalableEnd (continue o f w).0
  EndsSignalable-continue (ok a) f w kf h = (kf a).at w
  EndsSignalable-continue (err e) f w kf h = tt
  EndsSignalable-continue (panicked p) f w kf h = h

  pub EndsSignalable-bind :
      (m : Act S A) (f : A → Act S B)
      → EndsSignalable m
      → ((a : A) → EndsSignalable (f a))
      → EndsSignalable (m >>= f)
  EndsSignalable-bind m f km kf = record {
    at = λ w. EndsSignalable-continue (m w).0 f (m w).1 kf (km.at w);
  }

signalable_result : {A : Type 0} (p : Pending) (a : A) → IsSignalableEnd (result_of p a)
signalable_result quiet a = tt
signalable_result (signalled _ _) a = tt
signalable_result (thrown _ _) a = tt

module _ {S : Type 0} ⦃E : Emacs S⦄ (exits : ExitLaws S) where
  EndsSignalable-raw_call : {A : Type 0} (f : S → A × S) → EndsSignalable (raw_call f)
  unfolding raw_call
  EndsSignalable-raw_call f = record {
    at = λ w.
        let called = record w { emacs = (f w.emacs).1 } in
        rw ((handle_exit_outcome exits (f w.emacs).0 called).0) (signalable_result _ _);
  }

  EndsSignalable-ref : (ty : Transfer) (v : Value) → EndsSignalable {S = S} (ref_from_lisp ty v)
  unfolding ref_from_lisp get_raw_pointer get_user_finalizer get_user_ptr
  EndsSignalable-ref ty v =
      EndsSignalable-bind (get_user_finalizer v) _
        (EndsSignalable-raw_call (E.get_user_finalizer v.raw))
        (λ fin.
          EndsSignalable-if (is_finalizer ty fin) _ _
            (EndsSignalable-raw_call (E.get_user_ptr v.raw)) (EndsSignalable-fail _))

  try_borrow_ends : (cell : Address) (b : Borrow) → EndsSignalable {S = S} (try_borrow cell b)
  try_borrow_ends cell (shared n) = record { at = λ w. tt }
  try_borrow_ends cell exclusive = record { at = λ w. tt }

  try_borrow_mut_ends :
      (cell : Address) (b : Borrow) → EndsSignalable {S = S} (try_borrow_mut cell b)
  try_borrow_mut_ends cell b = record { at = λ w. ground arith }

  EndsSignalable-into_ref : (ty : Transfer) (v : Value) → EndsSignalable {S = S} (into_ref ty v)
  unfolding into_ref
  EndsSignalable-into_ref ty v =
      EndsSignalable-bind (ref_from_lisp ty v) _ (EndsSignalable-ref ty v)
        (λ cell. record { at = λ w. (try_borrow_ends cell (w.borrows cell)).at w })

  EndsSignalable-into_ref_mut :
      (ty : Transfer) (v : Value) → EndsSignalable {S = S} (into_ref_mut ty v)
  unfolding into_ref_mut
  EndsSignalable-into_ref_mut ty v =
      EndsSignalable-bind (ref_from_lisp ty v) _ (EndsSignalable-ref ty v)
        (λ cell. record { at = λ w. (try_borrow_mut_ends cell (w.borrows cell)).at w })

  EndsSignalable-get_arg : (args : CallArgs) (i : ℕ) → EndsSignalable {S = S} (get_arg args i)
  unfolding get_arg
  EndsSignalable-get_arg args i = elim (Option-cases (get_elem? args i)) [
    | inl e ↦ rw e (record { at = λ w. tt })
    | inr (x, e) ↦ rw e (EndsSignalable-pure _)
  ]

module _ {S T : Type 0} ⦃E : Emacs S⦄ (exits : ExitLaws S) (types : ArgTypes S T) (args : CallArgs)
    (body : List (Passed T) → Act S Value)
    (from_ends : (n : ℕ) (v : Value) → EndsSignalable (types.from n v))
    (body_ends : (ps : List (Passed T)) → EndsSignalable (body ps)) where
  pub EndsSignalable-bind_args :
      (signature : List Arg) (ps : List (Passed T))
      → EndsSignalable (bind_args types args body signature ps)
  unfolding bind_args
  EndsSignalable-bind_args [] ps = body_ends ps
  EndsSignalable-bind_args (env ∷ rest) ps = EndsSignalable-bind_args rest (ps ++ env_ref ∷ [])
  EndsSignalable-bind_args (val owned nth _ ∷ rest) ps =
      EndsSignalable-bind (get_arg args nth) _ (EndsSignalable-get_arg exits args nth) (λ v.
        EndsSignalable-bind (types.from nth v) _ (from_ends nth v)
          (λ x. EndsSignalable-bind_args rest (ps ++ by_value x ∷ [])))
  EndsSignalable-bind_args (val ref nth _ ∷ rest) ps =
      EndsSignalable-bind (get_arg args nth) _ (EndsSignalable-get_arg exits args nth) (λ v.
        EndsSignalable-bind (into_ref (types.cell nth) v) _
          (EndsSignalable-into_ref exits (types.cell nth) v)
          (λ c. EndsSignalable-guarded c _ (EndsSignalable-bind_args rest (ps ++ borrowed c ∷ []))))
  EndsSignalable-bind_args (val ref_mut nth _ ∷ rest) ps =
      EndsSignalable-bind (get_arg args nth) _ (EndsSignalable-get_arg exits args nth) (λ v.
        EndsSignalable-bind (into_ref_mut (types.cell nth) v) _
          (EndsSignalable-into_ref_mut exits (types.cell nth) v)
          (λ c.
            EndsSignalable-guarded c _ (EndsSignalable-bind_args rest (ps ++ borrowed_mut c ∷ []))))
