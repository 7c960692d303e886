-- ===== src/Tests/Loading.antt =====
-- A library that is loaded again, in the small Emacs, and a vector that is iterated over.
use emacs_module_rs.Base.{none, ◌≡◌, ℕ, false, refl, arith, [], ◌∷◌}
use emacs_module_rs.Machine.{codes, pure, World}
use emacs_module_rs.Exit.Laws.{quiet}
use emacs_module_rs.Value.{value}
use emacs_module_rs.Vector.{collect, into_iter, from_value_unchecked}
use emacs_module_rs.Vector.Ending.{collect-fuel}
use emacs_module_rs.Maps.{map_get}
use emacs_module_rs.Reloading.{Loader, Libraries, load}
use emacs_module_rs.Reloading.Table.{After, has_panicked, load-table}
use emacs_module_rs.Tests.Toy.{Toy, toy, loaded, vec}

abbrev eight_nine : World Toy
eight_nine = record loaded {
  emacs = record { exit = quiet; refs = []; objects = vec (8 ∷ 9 ∷ []) ∷ []; cells = λ n. none };
}

collect-fuel_example :
    collect 3 (into_iter (from_value_unchecked (value 0) 2)) eight_nine
    ≡ collect 50 (into_iter (from_value_unchecked (value 0) 2)) eight_nine
collect-fuel_example =
    collect-fuel 3 50 (into_iter (from_value_unchecked (value 0) 2)) eight_nine (omega arith)
      (omega arith)

-- Libraries are numbers; 7 is what opening gives, and its initializer reports 1.
abbrev loader : Loader Toy ℕ
loader = record {
  open_library = λ path. pure 7;
  get_init = λ lib. pure (pure 1);
  debug = λ lib. codes "Library";
  debug_poison = codes "PoisonError { .. }";
}

abbrev libraries : Libraries ℕ
libraries = record { entries = (codes "a", 5) ∷ (codes "b", 6) ∷ []; poisoned = false }

load-table_example :
    let (o, _, t) = load loader (codes "a") loaded libraries in
    After loader (codes "a") o (map_get (codes "a") t.entries)
    × (map_get (codes "b") t.entries ≡ map_get (codes "b") libraries.entries)
    × (t.poisoned ≡ has_panicked o)
load-table_example = load-table loader (codes "a") loaded libraries (codes "b") refl refl
