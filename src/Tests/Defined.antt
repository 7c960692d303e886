-- ===== src/Tests/Defined.antt =====
-- The functions that a module defines, in the small Emacs.
use emacs_module_rs.Base.{
  ℕ, zero, suc, ◌≡◌, refl, ap, Option, none, some, List, [], ◌∷◌, ◌++◌, length, get_elem?, map,
  arith,
}
use emacs_module_rs.Machine.{Bytes, codes, Raw, ok}
use emacs_module_rs.Init.{run_all}
use emacs_module_rs.Func.Defining.{Body, Later, SymbolLaws}
use emacs_module_rs.Names.{lisp_path}
use emacs_module_rs.Defun.Exporter.{LispFunc, exporter, name_of}
use emacs_module_rs.Defun.Exporter.Defined.{last_named, body_of, run_all-last_named}
use emacs_module_rs.Tests.Toy.{
  Toy, toy, Object, symbol, function, toy-ExitLaws, toy-RefLaws, loaded,
}
use emacs_module_rs.Tests.Modules.{insert_func}

abbrev name_of_object : Option Object → Option Bytes
name_of_object (some (symbol n)) = some n
name_of_object _ = none

abbrev body_of_object : Option Object → Option Body
body_of_object (some (function b)) = some b
body_of_object _ = none

abbrev toy_names : Raw → Toy → Option Bytes
toy_names r s = name_of_object (get_elem? s.objects r)

abbrev toy_bodies : Raw → Toy → Option Body
toy_bodies r s = body_of_object (get_elem? s.objects r)

abbrev toy_cells : Bytes → Toy → Option Body
toy_cells n s = s.cells n

only_symbol : (o : Option Object) (n : Bytes) → name_of_object o ≡ some n → o ≡ some (symbol n)
only_symbol o n e = ground (arith, e)

only_function : (o : Option Object) (b : Body) → body_of_object o ≡ some b → o ≡ some (function b)
only_function o b e = ground (arith, e)

get_elem-append :
    (xs ys : List Object) (i : ℕ) (x : Object)
    → get_elem? xs i ≡ some x
    → get_elem? (xs ++ ys) i ≡ some x
get_elem-append [] ys i x e = cc e
get_elem-append (y ∷ xs) ys zero x e = e
get_elem-append (y ∷ xs) ys (suc i) x e = get_elem-append xs ys i x e

get_elem-last : (xs : List Object) (x : Object) → get_elem? (xs ++ x ∷ []) (length xs) ≡ some x
get_elem-last [] x = refl
get_elem-last (y ∷ xs) x = get_elem-last xs x

-- A new object.
new-Later :
    (s : Toy) (o : Object)
    → Later toy_names toy_bodies toy_cells s (record s { objects = s.objects ++ o ∷ [] })
new-Later s o = record {
  named = λ r n e.
      ap name_of_object
        (get_elem-append s.objects (o ∷ []) r (symbol n) (only_symbol (get_elem? s.objects r) n e));
  bodied = λ r b e. ap body_of_object (
      get_elem-append s.objects (o ∷ []) r (function b)
        (only_function (get_elem? s.objects r) b e));
  same = λ n. refl;
}

toy-SymbolLaws : SymbolLaws toy_names toy_bodies toy_cells
toy-SymbolLaws = record {
  ref-Later = λ r s q. record {
    named = λ x n e. ground (arith, e);
    bodied = λ x b e. ground (arith, e);
    same = λ n. ground arith;
  };
  intern-Later = λ n s q. new-Later s (symbol n);
  intern-named = λ n s q calm. ap name_of_object (get_elem-last s.objects (symbol n));
  make_function-Later = λ min max f doc details s q. new-Later s (function _);
  make_function-body =
      λ min max f doc details s q calm. ap body_of_object (get_elem-last s.objects (function _));
  fset-cells = λ f name func n b s q by named made calm other.
      rw
        (
          only_symbol (get_elem? s.objects f) (codes "fset") by,
          only_symbol (get_elem? s.objects name) n named,
          only_function (get_elem? s.objects func) b made,
        )
        refl;
}

-- `insert`, and a second function by the same name.
abbrev insert_again : LispFunc
insert_again = record insert_func { lambda = 600 }

exported : (run_all {S = Toy} (map exporter (insert_func ∷ insert_again ∷ [])) loaded).0 ≡ ok tt
unfolding run_all exporter
exported = refl

last_test :
    last_named loaded.prefix loaded.mod_in_name
      (insert_func ∷ insert_again ∷ [])
      (codes "-map-insert")
      none
    ≡ some (body_of insert_again)
unfolding lisp_path name_of
last_test = refl

run_all-last_named_example :
    toy_cells
      (codes "-map-insert")
      (run_all {S = Toy} (map exporter (insert_func ∷ insert_again ∷ [])) loaded).1.emacs
    ≡ last_named loaded.prefix loaded.mod_in_name
        (insert_func ∷ insert_again ∷ [])
        (codes "-map-insert")
        none
run_all-last_named_example =
    run_all-last_named toy-ExitLaws toy-RefLaws toy-SymbolLaws (insert_func ∷ insert_again ∷ [])
      loaded refl exported (codes "-map-insert")
