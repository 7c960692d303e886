-- ===== src/Tests/Exits.antt =====
-- The theorems of the boundary and of the life of an `Env`, at concrete inputs.
use emacs_module_rs.Base.{ℕ, ◌+◌, ◌≡◌, refl, ap, arith, [], ◌∷◌, some, none, ◌++◌}
use emacs_module_rs.Machine.{
  codes, ErrorKind, Outcome, Raw, IsQuiet, World, ok, panicked, pure, fail, panic, string,
  static_str, kind_payload, signal, throw, wrong_type_user_ptr, kind, temp_value, borrow_error,
  display, display_kind, ◌>>=◌,
}
use emacs_module_rs.Exit.{handle_exit, raw_call}
use emacs_module_rs.Exit.Laws.{quiet, signalled, thrown, pending, result_of, handle_exit_outcome}
use emacs_module_rs.Value.{value}
use emacs_module_rs.Statics.{rust_error, rust_panic}
use emacs_module_rs.Signal.{signal_static}
use emacs_module_rs.Func.{handle_call, extern_lambda}
use emacs_module_rs.Func.Boundary.{Returns, handle_call-Returns, handle_call_unwinds}
use emacs_module_rs.Func.Exits.{
  StandsFor, handle_call-panicked, exit_roundtrip, IsTold, Signals, handle_call-rust_error,
  handle_call-rust_panic,
}
use emacs_module_rs.Func.References.{extern_lambda_refs}
use emacs_module_rs.Call.{list, values_args}
use emacs_module_rs.Convert.Text.{str_into_lisp}
use emacs_module_rs.Unwinding.{IsLoaded}
use emacs_module_rs.Lifetime.{drop_env}
use emacs_module_rs.Lifetime.Drop.{count, drop_env_frees}
use emacs_module_rs.Lifetime.Settling.{KeepingCalls, Settles-str}
use emacs_module_rs.Tests.Toy.{
  Toy, toy, toy_refs, refs-funcall, refs-get_user_ptr, refs-get_user_finalizer, toy-ExitLaws,
  toy-RefLaws, loaded,
}

pub loaded-IsLoaded : IsLoaded loaded
loaded-IsLoaded = record { statics = λ name small. ground arith }

-- A call of a function that signals, and one that throws.
abbrev signalling : Toy → Raw × Toy
signalling = toy.funcall 13 []

throwing_passes :
    pending (handle_call (raw_call (toy.funcall 14 []) >>= λ raw. pure (value raw)) loaded).1.emacs
    ≡ thrown 81 82
unfolding handle_call raw_call pending
throwing_passes = refl

handle_exit_outcome_example :
    ((handle_exit {A = ℕ} 5 loaded).0 ≡ result_of (pending loaded.emacs) 5)
    × IsQuiet (handle_exit {A = ℕ} 5 loaded).1.emacs
    × (pending loaded.emacs ≡ quiet → (handle_exit {A = ℕ} 5 loaded).1 ≡ loaded)
handle_exit_outcome_example = handle_exit_outcome toy-ExitLaws 5 loaded

exit_roundtrip_example :
    (k : ErrorKind) × StandsFor (pending (signalling loaded.emacs).1) k
    × ((raw_call signalling loaded).0 ≡ Outcome.err (kind k))
    × (pending (handle_call (raw_call signalling >>= λ raw. pure (value raw)) loaded).1.emacs
        ≡ pending (signalling loaded.emacs).1)
unfolding pending
exit_roundtrip_example =
    exit_roundtrip toy-ExitLaws signalling (λ raw. pure (value raw)) loaded (λ e. cc)

handle_call-Returns_example : Returns (handle_call (panic (string (codes "boom"))) loaded).0
handle_call-Returns_example =
    handle_call-Returns toy-ExitLaws (panic (string (codes "boom"))) loaded loaded-IsLoaded tt

handle_call-panicked_example :
    pending
      (handle_call (panic (kind_payload (throw (temp_value 5) (temp_value 6)))) loaded).1.emacs
    ≡ thrown 5 6
handle_call-panicked_example =
    handle_call-panicked toy-ExitLaws (panic (kind_payload (throw (temp_value 5) (temp_value 6))))
      (throw (temp_value 5) (temp_value 6)) loaded loaded refl (thrown 5 6) refl refl

-- Here the call of `list` signals.
abbrev broken : World Toy
broken = record loaded { globals = λ name. some 13 }

handle_call_unwinds_example :
    (handle_call (panic (kind_payload (wrong_type_user_ptr (codes "Map")))) broken).0
    ≡ panicked
        (string (codes "Failed to signal " ++ display_kind (wrong_type_user_ptr (codes "Map"))))
unfolding signal_static
handle_call_unwinds_example =
    handle_call_unwinds toy-ExitLaws (panic (kind_payload (wrong_type_user_ptr (codes "Map"))))
      (codes "Map") broken broken (kind (signal (temp_value 71) (temp_value 72))) refl refl

abbrev told_error : IsTold rust_error (display borrow_error) loaded 3 (value 16)
unfolding str_into_lisp list
told_error = record {
  message = value 15;
  after_message = (str_into_lisp (display borrow_error) loaded).1;
  after_list =
      (list (values_args (value 15 ∷ [])) (str_into_lisp (display borrow_error) loaded).1).1;
  set = refl;
  made = refl;
  listed = refl;
  calm = refl;
}

handle_call-rust_error_example : Signals (handle_call (fail borrow_error) loaded) 3 (value 16)
handle_call-rust_error_example =
    handle_call-rust_error toy-ExitLaws (fail borrow_error) borrow_error loaded loaded refl tt
      told_error

told_panic : IsTold rust_panic (codes "Any { .. }") loaded 4 (value 16)
unfolding str_into_lisp list
told_panic = record {
  message = value 15;
  after_message = (str_into_lisp (codes "Any { .. }") loaded).1;
  after_list = (list (values_args (value 15 ∷ [])) (str_into_lisp (codes "Any { .. }") loaded).1).1;
  set = refl;
  made = refl;
  listed = refl;
  calm = refl;
}

handle_call-rust_panic_example :
    Signals (handle_call (panic (static_str (codes "boom"))) loaded) 4 (value 16)
handle_call-rust_panic_example =
    handle_call-rust_panic toy-ExitLaws (panic (static_str (codes "boom")))
      (static_str (codes "boom")) loaded loaded refl tt told_panic

pub toy-KeepingCalls : KeepingCalls toy_refs
toy-KeepingCalls = record {
  funcall = λ f args. record { at = λ s r. ap (count r) (refs-funcall f args s) };
  make_string = λ b. record { at = λ s r. refl };
  intern = λ b. record { at = λ s r. refl };
  make_function = λ min max f doc details. record { at = λ s r. refl };
  get_user_finalizer = λ v. record { at = λ s r. ap (count r) (refs-get_user_finalizer v s) };
  get_user_ptr = λ v. record { at = λ s r. ap (count r) (refs-get_user_ptr v s) };
}

extern_lambda_refs_example :
    (toy_refs 15 (extern_lambda (λ args. str_into_lisp (codes "hi")) [] loaded).1.emacs
      ≡ toy_refs 15 loaded.emacs)
    × ((extern_lambda (λ args. str_into_lisp (codes "hi")) [] loaded).1.protected ≡ none)
extern_lambda_refs_example =
    extern_lambda_refs toy-ExitLaws toy-RefLaws toy-KeepingCalls
      (λ args. str_into_lisp (codes "hi")) [] loaded 15 refl
      (Settles-str toy-ExitLaws toy-RefLaws toy-KeepingCalls (codes "hi"))

-- A value that is protected twice, and a pending signal.
abbrev holding : World Toy
holding = record loaded {
  emacs = record { exit = signalled 7 8; refs = 5 ∷ 9 ∷ 5 ∷ []; objects = []; cells = λ n. none };
  protected = some (5 ∷ 5 ∷ []);
}

drop_env_frees_example :
    ((drop_env holding).0 ≡ ok tt)
    × (pending (drop_env holding).1.emacs ≡ pending holding.emacs)
    × (count 5 (5 ∷ 5 ∷ []) + toy_refs 5 (drop_env holding).1.emacs ≡ toy_refs 5 holding.emacs)
unfolding count
drop_env_frees_example =
    drop_env_frees toy_refs toy-ExitLaws toy-RefLaws (5 ∷ 5 ∷ []) holding 5 refl (omega arith)
