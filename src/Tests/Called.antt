-- ===== src/Tests/Called.antt =====
-- A wrapped function that panics while it borrows a RefCell, called by Emacs.
use emacs_module_rs.Base.{◌≡◌, refl, none, List, [], ◌∷◌}
use emacs_module_rs.Machine.{codes, Raw, Act, string, panic}
use emacs_module_rs.Value.{Value}
use emacs_module_rs.Func.{extern_lambda}
use emacs_module_rs.Func.Boundary.{Returns}
use emacs_module_rs.Frames.{frame, KeepsFrame-pure, KeepsFrame-panic}
use emacs_module_rs.Lifetime.Balance.{Settles-pure, Settles-panic}
use emacs_module_rs.Defun.Signature.{Arg, val, ref_mut}
use emacs_module_rs.Defun.Wrapper.{Passed, wrapper}
use emacs_module_rs.Defun.Wrapper.Ends.{EndsSignalable-pure}
use emacs_module_rs.Defun.Wrapper.Called.{extern_lambda-wrapper}
use emacs_module_rs.Tests.Toy.{Toy, toy, toy_refs, toy-ExitLaws, toy-RefLaws}
use emacs_module_rs.Tests.Exits.{loaded-IsLoaded, toy-KeepingCalls}
use emacs_module_rs.Tests.Modules.{types, embedded}

abbrev panicking : List (Passed Value) → Act Toy Value
panicking ps = panic (string (codes "boom"))

abbrev mutably : List Arg
mutably = val ref_mut 0 none ∷ []

extern_lambda-wrapper_example :
    let r = extern_lambda (λ given. wrapper types given panicking mutably) (0 ∷ []) embedded in
    Returns r.0
    × (frame r.1 ≡ frame embedded)
    × (r.1.protected ≡ embedded.protected)
    × ((g : Raw) → toy_refs g r.1.emacs ≡ toy_refs g embedded.emacs)
extern_lambda-wrapper_example =
    extern_lambda-wrapper toy-ExitLaws toy-RefLaws toy-KeepingCalls types panicking
      (λ n v. record {
        keeps = KeepsFrame-pure v;
        settles = Settles-pure v;
        ends = EndsSignalable-pure v;
      })
      (λ ps. record {
        keeps = KeepsFrame-panic _;
        settles = Settles-panic _;
        ends = record { at = λ w. tt };
      })
      mutably (0 ∷ []) embedded (record { statics = loaded-IsLoaded.statics }) refl
