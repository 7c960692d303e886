-- ===== src/Tests/Calls.antt =====
-- The theorems of the global references, and of an exit that is caught, at concrete inputs.
use emacs_module_rs.Base.{some, ◌==◌, ◌≡◌, refl}
use emacs_module_rs.Machine.{Raw, ok, pure}
use emacs_module_rs.Value.{value}
use emacs_module_rs.Global.{init}
use emacs_module_rs.Global.Once.{NotOk, init_again}
use emacs_module_rs.Exit.Laws.{pending, quiet}
use emacs_module_rs.Func.{handle_call}
use emacs_module_rs.TestModule.Errors.{catch}
use emacs_module_rs.TestModule.Errors.Catching.{handle_call-catch}
use emacs_module_rs.Frames.{KeepsFrame-pure}
use emacs_module_rs.Tests.Toy.{toy, toy-ExitLaws, toy-RefLaws, loaded}

init_again_example :
    NotOk (init 3 (pure (value 7)) loaded).0
    × ((init 3 (pure (value 7)) loaded).1.globals ≡ loaded.globals)
init_again_example = init_again 3 (pure (value 7)) loaded 3 (KeepsFrame-pure (value 7)) refl

-- The lambda throws 82 for the tag 81.
handle_call-catch_example :
    (pending (handle_call (catch (value 81) (value 14)) loaded).1.emacs ≡ quiet)
    × ((raw : Raw)
        → some 82 ≡ some raw
        → (handle_call (catch (value 81) (value 14)) loaded).0 ≡ ok raw)
unfolding pending
handle_call-catch_example =
    handle_call-catch toy-ExitLaws toy-RefLaws (value 81) (λ tag. tag == 81) (λ tag s. refl)
      (value 14) loaded
