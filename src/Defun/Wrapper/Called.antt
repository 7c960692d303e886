-- ===== src/Defun/Wrapper/Called.antt =====
-- The wrapper of a function as Emacs calls it, through its `Env` and `handle_call`.
use emacs_module_rs.Base.{ℕ, ◌≡◌, ap, List, []}
use emacs_module_rs.Machine.{Raw, Emacs, IsQuiet, ExitLaws, RefLaws, World, Act}
use emacs_module_rs.Value.{Value}
use emacs_module_rs.Lifetime.{new_env}
use emacs_module_rs.Lifetime.Balance.{Settles}
use emacs_module_rs.Lifetime.Settling.{KeepingCalls}
use emacs_module_rs.Unwinding.{IsLoaded}
use emacs_module_rs.Func.{CallArgs, handle_call, extern_lambda}
use emacs_module_rs.Func.Boundary.{Returns, handle_call-Returns}
use emacs_module_rs.Func.References.{extern_lambda_refs}
use emacs_module_rs.Frames.{Frame, frame, KeepsFrame}
use emacs_module_rs.Frames.Boundary.{KeepsFrame-handle_call, KeepsFrame-with_env}
use emacs_module_rs.Defun.Signature.{Arg}
use emacs_module_rs.Defun.Wrapper.{Passed, ArgTypes, wrapper}
use emacs_module_rs.Defun.Wrapper.Restores.{KeepsFrame-bind_args}
use emacs_module_rs.Defun.Wrapper.Ends.{EndsSignalable, EndsSignalable-bind_args}
use emacs_module_rs.Defun.Wrapper.Settled.{Settles-bind_args}

-- The action leaves the statics and the borrows, protects what it makes and frees nothing else, and
-- does not panic with a `WrongTypeUserPtr`. It may fail, and it may panic.
pub record IsTame {S A : Type 0} ⦃E : Emacs S⦄ (refs : Raw → S → ℕ) (m : Act S A) : Type 0 where
  pub keeps : KeepsFrame m
  pub settles : Settles refs m
  pub ends : EndsSignalable m

module _ {S : Type 0} where
  loaded_again : (w w' : World S) → frame w' ≡ frame w → IsLoaded w → IsLoaded w'
  loaded_again w w' same h = record {
    statics = λ name small.
        let set : w'.globals name ≡ w.globals name = ap (λ (f : Frame). f.globals name) same in
        rw set (h.statics name small);
  }

module _ {S T : Type 0} ⦃E : Emacs S⦄ {refs : Raw → S → ℕ} (exits : ExitLaws S)
    (laws : RefLaws S refs) (calls : KeepingCalls refs) (types : ArgTypes S T)
    (body : List (Passed T) → Act S Value)
    (from : (n : ℕ) (v : Value) → IsTame refs (types.from n v))
    (tame : (ps : List (Passed T)) → IsTame refs (body ps)) (signature : List Arg) where
  wrapper-IsTame : (args : CallArgs) → IsTame refs (wrapper types args body signature)
  unfolding wrapper
  wrapper-IsTame args = record {
    keeps =
        KeepsFrame-bind_args exits types args body (λ n v. (from n v).keeps) (λ ps. (tame ps).keeps)
          signature [];
    settles =
        Settles-bind_args exits laws calls types args body (λ n v. (from n v).settles)
          (λ ps. (tame ps).settles) signature [];
    ends =
        EndsSignalable-bind_args exits types args body (λ n v. (from n v).ends)
          (λ ps. (tame ps).ends) signature [];
  }

  -- If a function and the conversions of its owned arguments protect what they make and free
  -- nothing else, leave the statics and the borrows, and do not panic with a WrongTypeUserPtr
  -- payload, then a call by Emacs of its exported wrapper, on any arguments, when the crate's
  -- statics are set and no exit is pending, returns to Emacs and lets no panic through, whether
  -- the function returns, fails or panics; and every static, every borrow, every global
  -- reference and the protected list of the caller are as before it. Emacs follows ExitLaws and
  -- RefLaws, and its calls KeepingCalls.
  pub extern_lambda-wrapper :
      (args : CallArgs) (w : World S)
      → IsLoaded w
      → IsQuiet w.emacs
      → let r = extern_lambda (λ given. wrapper types given body signature) args w in
        Returns r.0
        × (frame r.1 ≡ frame w)
        × (r.1.protected ≡ w.protected)
        × ((g : Raw) → refs g r.1.emacs ≡ refs g w.emacs)
  unfolding extern_lambda new_env
  extern_lambda-wrapper args w h q =
      let f = wrapper types args body signature in
      let t = wrapper-IsTame args in
      let w1 = (new_env w).1 in
      let func : CallArgs → Act S Value = λ given. wrapper types given body signature in
      (
        handle_call-Returns exits f w1 (loaded_again w (f w1).1 (t.keeps.at w1) h) (t.ends.at w1),
        (KeepsFrame-with_env (handle_call f) (KeepsFrame-handle_call exits f t.keeps)).at w,
        (extern_lambda_refs exits laws calls func args w 0 q t.settles).1,
        λ g. (extern_lambda_refs exits laws calls func args w g q t.settles).0,
      )
