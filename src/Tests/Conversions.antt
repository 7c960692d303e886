-- ===== src/Tests/Conversions.antt =====
-- The theorems of the conversions, at concrete inputs.
use emacs_module_rs.Base.{
  pos, ◌≡◌, ◌⊎◌, refl, arith, Option, none, some, List, [], ◌∷◌, ◌++◌, length, get_elem?,
}
use emacs_module_rs.Machine.{
  Bytes, codes, Raw, Address, World, ok, err, try_from_int_error, wrong_type_user_ptr, kind, ◌>>=◌,
}
use emacs_module_rs.Exit.{raw_call}
use emacs_module_rs.Exit.Laws.{quiet}
use emacs_module_rs.Value.{value}
use emacs_module_rs.Convert.Integer.{u8, u64, InRange, i64_from_lisp, int_from_lisp, int_into_lisp}
use emacs_module_rs.Convert.Integer.Bounds.{IntegerLaws, int_from_lisp_cases}
use emacs_module_rs.Convert.Integer.Roundtrip.{int_from_lisp-int_into_lisp}
use emacs_module_rs.Convert.Text.{strip_trailing_zero_bytes}
use emacs_module_rs.Convert.Text.Strip.{IsStripped, strip_trailing_zero_bytes-IsStripped}
use emacs_module_rs.Vector.{into_iter, vector_from_lisp, collect}
use emacs_module_rs.Vector.Iterate.{VectorLaws, collect-elements}
use emacs_module_rs.UserPtr.Borrowing.{borrow_outcome, borrow_mut_outcome, into_ref-box_into_lisp}
use emacs_module_rs.UserPtr.{into_ref, into_ref_mut, Transfer, box_into_lisp, get_raw_pointer}
use emacs_module_rs.UserPtr.Tags.{
  UserPtrLaws, get_raw_pointer-box_into_lisp, get_raw_pointer_refuses,
}
use emacs_module_rs.Tests.Toy.{toy-ExitLaws, Toy, toy, Object, int, vec, text, user_ptr, loaded}

-- A new object is at the end of the table.
get_elem-end : (xs : List Object) (x : Object) → get_elem? (xs ++ x ∷ []) (length xs) ≡ some x
get_elem-end [] x = refl
get_elem-end (y ∷ xs) x = get_elem-end xs x

toy-IntegerLaws : IntegerLaws Toy
toy-IntegerLaws = record {
  make-IsQuiet = λ x s q h. q;
  extract-IsQuiet = λ x s q h. q;
  extract-make = λ x s q h. rw get_elem-end refl;
}

-- A table of one object.
abbrev holding : Object → World Toy
holding o = record loaded {
  emacs = record { exit = quiet; refs = []; objects = o ∷ []; cells = λ n. none };
}

read_300 :
    i64_from_lisp (value 0) (holding (int (pos 300))) ≡ (ok (pos 300), holding (int (pos 300)))
unfolding i64_from_lisp raw_call
read_300 = refl

int_from_lisp_cases_example :
    let w = holding (int (pos 300)) in
    (InRange u8 (pos 300) × (int_from_lisp u8 (value 0) w ≡ (ok (pos 300), w)))
    ⊎ ((¬ InRange u8 (pos 300)) × (int_from_lisp u8 (value 0) w ≡ (err try_from_int_error, w)))
int_from_lisp_cases_example =
    int_from_lisp_cases u8 (value 0) (pos 300) (holding (int (pos 300))) (holding (int (pos 300)))
      read_300

int_from_lisp-int_into_lisp_example :
    ((int_into_lisp u64 (pos 7) >>= int_from_lisp u64) loaded).0 ≡ ok (pos 7)
int_from_lisp-int_into_lisp_example =
    int_from_lisp-int_into_lisp toy-IntegerLaws (pos 7) loaded refl (omega arith, omega arith) u64
      (omega arith, omega arith)

strip_trailing_zero_bytes-IsStripped_example :
    IsStripped (5 ∷ 0 ∷ 6 ∷ 0 ∷ 0 ∷ []) (strip_trailing_zero_bytes (5 ∷ 0 ∷ 6 ∷ 0 ∷ 0 ∷ []))
strip_trailing_zero_bytes-IsStripped_example =
    strip_trailing_zero_bytes-IsStripped (5 ∷ 0 ∷ 6 ∷ 0 ∷ 0 ∷ [])

abbrev elements : Option Object → Option (List Raw)
elements (some (vec xs)) = some xs
elements _ = none

toy-VectorLaws : VectorLaws Toy (λ r s. elements (get_elem? s.objects r))
toy-VectorLaws = record {
  size-elements = λ r xs s q h. ground arith;
  get-elements = λ r xs s i x q h g. ground arith;
}

collect-elements_example :
    (vector_from_lisp (value 0) >>= (λ v. collect 3 (into_iter v))) (holding (vec (8 ∷ 9 ∷ [])))
    ≡ (ok (value 8 ∷ value 9 ∷ []), holding (vec (8 ∷ 9 ∷ [])))
collect-elements_example =
    collect-elements (λ r s. elements (get_elem? s.objects r)) toy-VectorLaws 0 (8 ∷ 9 ∷ [])
      (holding (vec (8 ∷ 9 ∷ []))) refl refl (omega arith) 3 (omega arith)

abbrev embeds : Option Object → Option (Option Address × Address)
embeds (some (user_ptr f p)) = some (f, p)
embeds _ = none

toy-UserPtrLaws : UserPtrLaws Toy (λ r s. embeds (get_elem? s.objects r))
toy-UserPtrLaws = record {
  make-IsQuiet = λ f p s q. q;
  make-embeds = λ f p s q. rw get_elem-end refl;
  get_finalizer = λ r f p s q h. ground arith;
  get_ptr = λ r f p s q h. ground arith;
  ref-IsQuiet = λ v s q. ground arith;
  ref-embeds = λ v r s. ground arith;
}

abbrev texts : Option Object → Option Bytes
texts (some (text b)) = some b
texts _ = none

abbrev map_type : Transfer
map_type = record { type_name = codes "Map"; finalize = 100 }

abbrev set_type : Transfer
set_type = record { type_name = codes "Set"; finalize = 200 }

get_raw_pointer-box_into_lisp_example :
    ((box_into_lisp map_type 4096 >>= get_raw_pointer map_type) loaded).0 ≡ ok 4096
get_raw_pointer-box_into_lisp_example =
    get_raw_pointer-box_into_lisp toy-UserPtrLaws map_type 4096 loaded refl

get_raw_pointer_refuses_example :
    ((box_into_lisp map_type 4096 >>= get_raw_pointer set_type) loaded).0
    ≡ err (kind (wrong_type_user_ptr (codes "Set")))
get_raw_pointer_refuses_example =
    get_raw_pointer_refuses toy-UserPtrLaws map_type 4096 loaded refl set_type (omega arith)

into_ref-box_into_lisp_example :
    (((box_into_lisp map_type 4096 >>= into_ref map_type) loaded).0
      ≡ borrow_outcome (loaded.borrows 4096) 4096)
    × (((box_into_lisp map_type 4096 >>= into_ref_mut map_type) loaded).0
        ≡ borrow_mut_outcome (loaded.borrows 4096) 4096)
into_ref-box_into_lisp_example =
    into_ref-box_into_lisp toy-ExitLaws toy-UserPtrLaws map_type 4096 loaded refl
