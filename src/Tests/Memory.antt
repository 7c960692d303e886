-- ===== src/Tests/Memory.antt =====
-- The theorems on boxes and their owners, in the small Emacs: a value is embedded, and collected.
use emacs_module_rs.Base.{
  ◌≤◌, ◌≡◌, ℕ, zero, suc, pos, refl, arith, true, Option, none, some, List, [], ◌∷◌, ◌++◌, length,
  get_elem?, ◌==◌, if◌then◌else◌,
}
use emacs_module_rs.Machine.{IsQuiet, Address, ok}
use emacs_module_rs.Exit.Laws.{quiet}
use emacs_module_rs.Lifetime.Drop.{count}
use emacs_module_rs.Exit.{raw_call, handle_exit, non_local_exit_get}
use emacs_module_rs.Value.{value, raw_call_value, raw_call_value_unprotected, protect}
use emacs_module_rs.UserPtr.{
  ref_from_lisp, get_raw_pointer, get_user_ptr, get_user_finalizer, box_into_lisp, make_user_ptr,
}
use emacs_module_rs.Memory.{
  TypeId, write, Embedded, Heap, Live, Platform, Process, embed, box_new, done, collect, sweep,
}
use emacs_module_rs.Memory.Users.{MemoryLaws}
use emacs_module_rs.Memory.Steps.{Reach, here, further, embeds as embedding, IsOwned}
use emacs_module_rs.Memory.Collecting.{Reach-IsOwned, Reach-collect, collected}
use emacs_module_rs.Memory.Sweep.{Reach-sweep}
use emacs_module_rs.Memory.Reading.{ref_from_lisp-IsLive}
use emacs_module_rs.Tests.Toy.{Toy, toy, Object, int, user_ptr, loaded}

abbrev embedded : Option Object → Option Embedded
embedded (some (user_ptr f p)) = some (f, p)
embedded _ = none

abbrev replace : ℕ → Object → List Object → List Object
replace i o [] = []
replace zero o (x ∷ xs) = o ∷ xs
replace (suc i) o (x ∷ xs) = x ∷ replace i o xs

module _ {C : Type 0} where
  -- The first address, from a start, that no box is at; 100 are tried.
  abbrev free_of : Option (Live C) → Address → Address → Address
  free_of none p rest = p
  free_of (some b) p rest = rest

  abbrev first_free : ℕ → Address → Heap C → Address
  first_free zero p heap = p
  first_free (suc n) p heap = free_of (heap p) p (first_free n (suc p) heap)

  -- The finalizer of a type is at the address that is its number.
  abbrev pub small : Platform Toy C
  small = record {
    transfer = λ ty. record { type_name = []; finalize = ty };
    in_module = λ f. true;
    allocate = λ heap. first_free 100 0 heap;
    users = λ object s. embedded (get_elem? s.objects object);
    discard = λ object s. record s { objects = replace object (int (pos 0)) s.objects };
  }

get_elem-new :
    (xs : List Object) (x : Object) (i : ℕ)
    → get_elem? (xs ++ x ∷ []) i ≡ (if length xs == i then some x else get_elem? xs i)
get_elem-new [] x zero = refl
get_elem-new [] x (suc i) = ground arith
get_elem-new (y ∷ xs) x zero = ground arith
get_elem-new (y ∷ xs) x (suc i) = ground (arith, get_elem-new xs x i)

get_elem-length : (xs : List Object) → get_elem? xs (length xs) ≡ none
get_elem-length [] = refl
get_elem-length (x ∷ xs) = get_elem-length xs

embedded-replace :
    (i j : ℕ) (xs : List Object)
    → embedded (get_elem? (replace i (int (pos 0)) xs) j)
      ≡ (if i == j then none else embedded (get_elem? xs j))
embedded-replace i j [] = ground arith
embedded-replace zero zero (x ∷ xs) = ground arith
embedded-replace zero (suc j) (x ∷ xs) = ground arith
embedded-replace (suc i) zero (x ∷ xs) = ground arith
embedded-replace (suc i) (suc j) (x ∷ xs) = ground (arith, embedded-replace i j xs)

pub small-MemoryLaws : {C : Type 0} → MemoryLaws {C = C} small (λ r s. some r)
small-MemoryLaws = record {
  in_module-finalize = λ ty. refl;
  in_module_inv = λ f e. (f, refl);
  make-IsQuiet = λ f p s q. q;
  make-users = λ f p s q. (
    length s.objects,
    rw get_elem-length refl,
    λ object. ground (arith, get_elem-new s.objects (user_ptr f p) object),
  );
  ref-users = λ v s object. ground arith;
  discard-users = λ gone s object. embedded-replace gone object s.objects;
  get_finalizer = λ r object u s q name there. ground arith;
  get_ptr = λ r object u s q name there. ground arith;
  refuses = λ r object s q name missing. ground arith;
}

-- The same with one finalizer for all types, which the compiler has merged.
abbrev merged : Platform Toy ℕ
merged = record small {
  transfer = λ ty. record { type_name = []; finalize = 100 };
  in_module = λ f. f == 100;
}

merged-MemoryLaws : MemoryLaws merged (λ r s. some r)
merged-MemoryLaws = record {
  in_module-finalize = λ ty. refl;
  in_module_inv = λ f e. (0, ground (arith, e));
  make-IsQuiet = (small-MemoryLaws {C = ℕ}).make-IsQuiet;
  make-users = (small-MemoryLaws {C = ℕ}).make-users;
  ref-users = (small-MemoryLaws {C = ℕ}).ref-users;
  discard-users = (small-MemoryLaws {C = ℕ}).discard-users;
  get_finalizer = (small-MemoryLaws {C = ℕ}).get_finalizer;
  get_ptr = (small-MemoryLaws {C = ℕ}).get_ptr;
  refuses = (small-MemoryLaws {C = ℕ}).refuses;
}

module _ {C : Type 0} where
  -- No box, and no object.
  abbrev pub start : Process Toy C
  start = record {
    world = record loaded {
      emacs = record { exit = quiet; refs = []; objects = []; cells = λ n. none };
    };
    heap = λ p. none;
  }

  pub start-IsOwned : IsOwned {C = C} small start
  start-IsOwned = record {
    box_of = λ object ty p own. ground (arith, own);
    one_owner = λ object other ty ty' p own own'. ground (arith, own);
    owner_of = λ p b held. ground (arith, held);
  }

-- A box of type 3, with content 7.
abbrev one_box : Process Toy ℕ
one_box = (embed small 3 7 start).1

one_box-Reach : Reach small start one_box
one_box-Reach = further here (embedding 3 7 refl refl)

read_back : (ref_from_lisp ((small {C = ℕ}).transfer 3) (value 0) one_box.world).0 ≡ ok 0
unfolding ref_from_lisp get_raw_pointer get_user_ptr get_user_finalizer raw_call handle_exit
    non_local_exit_get embed box_new box_into_lisp make_user_ptr raw_call_value
    raw_call_value_unprotected protect
read_back = refl

owned_0 :
    (object : ℕ) (ty : TypeId) (p : Address)
    → (small {C = ℕ}).users object one_box.world.emacs ≡ some (some ty, p)
    → 1 ≤ count object (0 ∷ [])
unfolding embed box_new box_into_lisp make_user_ptr raw_call_value raw_call_value_unprotected
    protect raw_call handle_exit non_local_exit_get count
owned_0 zero ty p own = omega arith
owned_0 (suc i) ty p own = ground (arith, own)

one_box-IsQuiet : IsQuiet one_box.world.emacs
unfolding embed box_new box_into_lisp make_user_ptr raw_call_value raw_call_value_unprotected
    protect raw_call handle_exit non_local_exit_get
one_box-IsQuiet = refl

Reach-IsOwned_example : IsOwned small one_box
Reach-IsOwned_example = Reach-IsOwned small-MemoryLaws one_box-Reach start-IsOwned

merged_start-IsOwned : IsOwned merged start
merged_start-IsOwned = record {
  box_of = λ object ty p own. ground (arith, own);
  one_owner = λ object other ty ty' p own own'. ground (arith, own);
  owner_of = λ p b held. ground (arith, held);
}

-- Two boxes, of the types 3 and 4.
abbrev two_boxes : Process Toy ℕ
two_boxes = (embed merged 4 8 (embed merged 3 7 start).1).1

two_boxes-Reach : Reach merged start two_boxes
unfolding embed box_new box_into_lisp make_user_ptr raw_call_value raw_call_value_unprotected
    protect raw_call handle_exit non_local_exit_get write
two_boxes-Reach = further (further here (embedding 3 7 refl refl)) (embedding 4 8 refl refl)

Reach-collect_example : collect merged 0 two_boxes ≡ done (collected merged 0 two_boxes)
Reach-collect_example = Reach-collect merged-MemoryLaws two_boxes-Reach merged_start-IsOwned 0

Reach-sweep_example :
    (z : Process Toy ℕ) × (sweep small (0 ∷ []) one_box ≡ done z)
    × ((p : Address) → z.heap p ≡ none)
Reach-sweep_example = Reach-sweep small-MemoryLaws one_box-Reach start-IsOwned (0 ∷ []) owned_0

ref_from_lisp-IsLive_example :
    (b : Live ℕ) × (one_box.heap 0 ≡ some b)
    × (((small {C = ℕ}).transfer b.type_id).finalize ≡ ((small {C = ℕ}).transfer 3).finalize)
ref_from_lisp-IsLive_example =
    ref_from_lisp-IsLive small-MemoryLaws one_box-Reach start-IsOwned 3 0 0 0 one_box-IsQuiet refl
      read_back
