-- ===== src/Defun/Wrapper/Calm.antt =====
-- The wrapper finds each argument of its signature.
use emacs_module_rs.Base.{
  ℕ, zero, suc, ◌<◌, ◌≡◌, refl, Bool, some, List, [], ◌∷◌, ◌++◌, length, get_elem?, if◌then◌else◌,
  true, false, arith,
}
use emacs_module_rs.Machine.{
  Raw, Address, Emacs, ExitLaws, Borrow, shared, exclusive, World, Act, gets,
}
use emacs_module_rs.Value.{Value, value}
use emacs_module_rs.UserPtr.{
  Transfer, is_finalizer, get_user_ptr, get_user_finalizer, get_raw_pointer, ref_from_lisp,
  into_ref, into_ref_mut, try_borrow, try_borrow_mut,
}
use emacs_module_rs.Func.{CallArgs, get_arg}
use emacs_module_rs.Unwinding.{
  IsLoaded, NoPanic, NeverPanics, NeverPanics-pure, NeverPanics-bind, NeverPanics-fail,
  NeverPanics-raw_call,
}
use emacs_module_rs.Defun.Signature.{
  Arg, env, val, owned, ref, ref_mut, FnArg, CheckedSignature, accepted, check_signature,
}
use emacs_module_rs.Defun.Signature.Arities.{nths, AllBelow, AllBelow-nths}
use emacs_module_rs.Defun.Wrapper.{
  Passed, env_ref, by_value, borrowed, borrowed_mut, ArgTypes, guarded, bind_args, wrapper,
}

get_elem_some : (xs : List Raw) (i : ℕ) → i < length xs → (x : Raw) × (get_elem? xs i ≡ some x)
get_elem_some [] i h = absurd (omega arith)
get_elem_some (x ∷ xs) zero h = (x, refl)
get_elem_some (x ∷ xs) (suc i) h = get_elem_some xs i (omega arith)

module _ {S : Type 0} ⦃E : Emacs S⦄ (exits : ExitLaws S) where
  NeverPanics-get_arg :
      (args : CallArgs) (i : ℕ) → i < length args → NeverPanics {S = S} (get_arg args i)
  unfolding get_arg
  NeverPanics-get_arg args i h =
      let (x, e) = get_elem_some args i h in rw e (NeverPanics-pure {S = S} (value x))

  NeverPanics-if :
      (b : Bool) (m n : Act S Address)
      → NeverPanics m
      → NeverPanics n
      → NeverPanics (if b then m else n)
  NeverPanics-if true m n hm hn = hm
  NeverPanics-if false m n hm hn = hn

  NeverPanics-ref : (ty : Transfer) (v : Value) → NeverPanics {S = S} (ref_from_lisp ty v)
  unfolding ref_from_lisp get_raw_pointer get_user_finalizer get_user_ptr
  NeverPanics-ref ty v =
      NeverPanics-bind (get_user_finalizer v) _
        (NeverPanics-raw_call exits (E.get_user_finalizer v.raw))
        (λ fin.
          NeverPanics-if (is_finalizer ty fin) _ _
            (NeverPanics-raw_call exits (E.get_user_ptr v.raw)) (NeverPanics-fail _))

  NeverPanics-gets : {A : Type 0} (f : World S → A) → NeverPanics (gets f)
  NeverPanics-gets f = record { at = λ w h. (tt, h) }

  try_borrow-calm : (cell : Address) (b : Borrow) → NeverPanics {S = S} (try_borrow cell b)
  try_borrow-calm cell (shared n) = record { at = λ w h. (tt, record { statics = h.statics }) }
  try_borrow-calm cell exclusive = record { at = λ w h. (tt, h) }

  try_borrow_mut-calm : (cell : Address) (b : Borrow) → NeverPanics {S = S} (try_borrow_mut cell b)
  try_borrow_mut-calm cell (shared zero) = record {
    at = λ w h. (tt, record { statics = h.statics });
  }
  try_borrow_mut-calm cell (shared (suc n)) = record { at = λ w h. (tt, h) }
  try_borrow_mut-calm cell exclusive = record { at = λ w h. (tt, h) }

  NeverPanics-into_ref : (ty : Transfer) (v : Value) → NeverPanics {S = S} (into_ref ty v)
  unfolding into_ref
  NeverPanics-into_ref ty v =
      NeverPanics-bind (ref_from_lisp ty v) _ (NeverPanics-ref ty v) (λ cell.
        NeverPanics-bind (gets (λ w. w.borrows cell)) (λ b. try_borrow cell b)
          (NeverPanics-gets (λ w. w.borrows cell)) (λ b. try_borrow-calm cell b))

  NeverPanics-into_ref_mut : (ty : Transfer) (v : Value) → NeverPanics {S = S} (into_ref_mut ty v)
  unfolding into_ref_mut
  NeverPanics-into_ref_mut ty v =
      NeverPanics-bind (ref_from_lisp ty v) _ (NeverPanics-ref ty v) (λ cell.
        NeverPanics-bind (gets (λ w. w.borrows cell)) (λ b. try_borrow_mut cell b)
          (NeverPanics-gets (λ w. w.borrows cell)) (λ b. try_borrow_mut-calm cell b))

  NeverPanics-guarded :
      {A : Type 0} (cell : Address) (m : Act S A) → NeverPanics m → NeverPanics (guarded cell m)
  NeverPanics-guarded cell m k = record {
    at = λ w h. let (n, h') = k.at w h in (n, record { statics = h'.statics });
  }

module _ {S T : Type 0} ⦃E : Emacs S⦄ (exits : ExitLaws S) (types : ArgTypes S T)
    (body : List (Passed T) → Act S Value)
    (calm_types : (n : ℕ) (v : Value) → NeverPanics (types.from n v))
    (calm_body : (ps : List (Passed T)) → NeverPanics (body ps)) where
  NeverPanics-bind_args :
      (args : CallArgs) (signature : List Arg) (ps : List (Passed T))
      → AllBelow (length args) (nths signature)
      → NeverPanics (bind_args types args body signature ps)
  unfolding bind_args nths
  NeverPanics-bind_args args [] ps h = calm_body ps
  NeverPanics-bind_args args (env ∷ rest) ps h =
      NeverPanics-bind_args args rest (ps ++ env_ref ∷ []) h
  NeverPanics-bind_args args (val owned nth _ ∷ rest) ps (less, h) =
      NeverPanics-bind (get_arg args nth) _ (NeverPanics-get_arg exits args nth less) (λ v.
        NeverPanics-bind (types.from nth v) _ (calm_types nth v)
          (λ x. NeverPanics-bind_args args rest (ps ++ by_value x ∷ []) h))
  NeverPanics-bind_args args (val ref nth _ ∷ rest) ps (less, h) =
      NeverPanics-bind (get_arg args nth) _ (NeverPanics-get_arg exits args nth less) (λ v.
        NeverPanics-bind (into_ref (types.cell nth) v) _
          (NeverPanics-into_ref exits (types.cell nth) v)
          (λ cell.
            NeverPanics-guarded exits cell _
              (NeverPanics-bind_args args rest (ps ++ borrowed cell ∷ []) h)))
  NeverPanics-bind_args args (val ref_mut nth _ ∷ rest) ps (less, h) =
      NeverPanics-bind (get_arg args nth) _ (NeverPanics-get_arg exits args nth less) (λ v.
        NeverPanics-bind (into_ref_mut (types.cell nth) v) _
          (NeverPanics-into_ref_mut exits (types.cell nth) v)
          (λ cell.
            NeverPanics-guarded exits cell _
              (NeverPanics-bind_args args rest (ps ++ borrowed_mut cell ∷ []) h)))

  -- The wrapper of a function whose signature is accepted, called with as many arguments as the
  -- arity that it is exported with, does not panic, if the conversions and the function do not
  -- and the crate's statics are set. Emacs follows ExitLaws.
  pub wrapper-NoPanic :
      (inputs : List FnArg) (has_output : Bool) (r : CheckedSignature) (args : CallArgs)
      (w : World S)
      → check_signature inputs has_output ≡ accepted r
      → length args ≡ r.start
      → IsLoaded w
      → NoPanic (wrapper types args body r.args w).0
  unfolding wrapper
  wrapper-NoPanic inputs has_output r args w e l h =
      let below : AllBelow (length args) (nths r.args) =
        rw l (AllBelow-nths inputs has_output r e) in
      ((NeverPanics-bind_args args r.args [] below).at w h).0
