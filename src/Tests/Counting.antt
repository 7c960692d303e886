-- ===== src/Tests/Counting.antt =====
-- The increment of an integer that is the last of its type, in the small Emacs.
use emacs_module_rs.Base.{pos, refl, arith, true}
use emacs_module_rs.Value.{value}
use emacs_module_rs.Memory.{write}
use emacs_module_rs.TestModule.State.{integer}
use emacs_module_rs.TestModule.RefCells.Counting.{Increments, inc_cell-Increments}
use emacs_module_rs.Tests.Toy.{toy}
use emacs_module_rs.Tests.Memory.{small}
use emacs_module_rs.Tests.Embedding.{holding}

inc_cell-Increments_example :
    Increments small 4
      (value 0)
      0
      true
      (pos 9223372036854775807)
      (holding (integer (pos 9223372036854775807)))
unfolding write
inc_cell-Increments_example =
    inc_cell-Increments small 4 (value 0) 0 true (pos 9223372036854775807)
      (holding (integer (pos 9223372036854775807))) (refl, refl, refl) refl
      (omega arith, omega arith)
