-- ===== src/Tests/Embedding.antt =====
-- The test module in the small Emacs: a vector that is swapped, and a map that Lisp reads and writes.
use mathlib.Core.Path.{subst}
use emacs_module_rs.Machine.{IsQuiet}
use emacs_module_rs.Base.{
  ◌≢◌, ◌≡◌, pos, negsuc, refl, arith, none, some, List, [], ◌∷◌, Bool-cases, inl, inr, ◌==◌,
}
use emacs_module_rs.Machine.{Address, Bytes, codes, ok}
use emacs_module_rs.Exit.Laws.{quiet}
use emacs_module_rs.Value.{value}
use emacs_module_rs.Memory.{Live, live, Process, write, embed, box_new, done, fault}
use emacs_module_rs.Memory.Steps.{Reach, here, further, embeds as embedding}
use emacs_module_rs.Maps.{map_get}
use emacs_module_rs.TestModule.State.{Contents, vector, map}
use emacs_module_rs.TestModule.Vectors.{swap_components}
use emacs_module_rs.TestModule.Vectors.Swap.{Fits, swap_plain, swap_components-swap_plain}
use emacs_module_rs.TestModule.HashMap.Refines.{
  Op, getting, setting, answers, afters, run_ops, Holds, run_ops-answers,
}
use emacs_module_rs.Maps.View.{view}
use emacs_module_rs.Tests.Toy.{Toy, toy, user_ptr, loaded}
use emacs_module_rs.Tests.Memory.{small, small-MemoryLaws, start, start-IsOwned}
use emacs_module_rs.TestModule.Vectors.Safe.{IsVector, swap_components_safe}
use emacs_module_rs.UserPtr.{box_into_lisp, make_user_ptr}
use emacs_module_rs.Exit.{raw_call, handle_exit, non_local_exit_get}
use emacs_module_rs.Value.{raw_call_value, raw_call_value_unprotected, protect}

-- An Emacs with one user pointer, of the type 4, to the box at 0.
abbrev pub holding : Contents → Process Toy Contents
holding c = record {
  world = record loaded {
    emacs = record {
      exit = quiet;
      refs = [];
      objects = user_ptr (some 4) 0 ∷ [];
      cells = λ n. none;
    };
  };
  heap = write (λ p. none) 0 (some (live 4 c));
}

held_box :
    (p : Address) (b : Live Contents)
    → (holding (vector (pos 5) (negsuc 6))).heap p ≡ some b
    → live 4 (vector (pos 5) (negsuc 6)) ≡ b
unfolding write
held_box p b held = elim (Bool-cases (0 == p)) [
  | inl e ↦ let found : some (live 4 (vector (pos 5) (negsuc 6))) ≡ some b = rw e at held in cc
  | inr e ↦ ground (arith, rw e at held)
]

only_vector :
    (p : Address) (b : Live Contents)
    → (holding (vector (pos 5) (negsuc 6))).heap p ≡ some b
    → Fits b.content
only_vector p b held =
    subst (λ (b : Live Contents). Fits b.content) (held_box p b held)
      ((omega arith, omega arith), (omega arith, omega arith))

swap_components-swap_plain_example :
    swap_components small 4 (value 0) (holding (vector (pos 5) (negsuc 6)))
    ≡ swap_plain small 4 (value 0) (holding (vector (pos 5) (negsuc 6)))
swap_components-swap_plain_example =
    swap_components-swap_plain small 4 (value 0) (holding (vector (pos 5) (negsuc 6))) only_vector

map_Holds : Holds small 4 (value 0) 0 [] (holding (map []))
unfolding write
map_Holds = ((refl, refl, refl), refl, refl)

abbrev calls : List Op
calls =
    setting (codes "a") (codes "1")
    ∷ setting (codes "b") (codes "2")
    ∷ setting (codes "a") (codes "3")
    ∷ getting (codes "a")
    ∷ []

answers_test : answers calls (view []) ≡ none ∷ none ∷ some (codes "1") ∷ some (codes "3") ∷ []
unfolding map_get
answers_test = refl

run_ops-answers_example :
    (y : Process Toy Contents) × (n : List (Bytes × Bytes)) × (run_ops small 4
        (value 0)
        0
        calls
        (holding (map []))
      ≡ done (ok (answers calls (view [])), y))
    × Holds small 4 (value 0) 0 n y
    × (view n ≡ afters calls (view []))
run_ops-answers_example = run_ops-answers small 4 (value 0) 0 calls [] (holding (map [])) map_Holds

-- The same vector, embedded by the crate.
abbrev one_pair : Process Toy Contents
one_pair = (embed small 4 (vector (pos 5) (negsuc 6)) start).1

one_pair-Reach : Reach small start one_pair
one_pair-Reach = further here (embedding 4 (vector (pos 5) (negsuc 6)) refl refl)

one_pair-IsQuiet : IsQuiet one_pair.world.emacs
unfolding embed box_new box_into_lisp make_user_ptr raw_call_value raw_call_value_unprotected
    protect raw_call handle_exit non_local_exit_get
one_pair-IsQuiet = refl

boxes_typed :
    (p : Address) (b : Live Contents)
    → one_pair.heap p ≡ some b
    → b.type_id ≡ 4
    → IsVector b.content
unfolding embed box_new
boxes_typed p b held is =
    subst (λ (b : Live Contents). IsVector b.content) (held_box p b held) (pos 5, negsuc 6, refl)

swap_components_safe_example : swap_components small 4 (value 0) one_pair ≢ fault
swap_components_safe_example =
    swap_components_safe small-MemoryLaws one_pair-Reach start-IsOwned 4 0 0 one_pair-IsQuiet refl
      boxes_typed
