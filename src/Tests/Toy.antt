-- ===== src/Tests/Toy.antt =====
-- A small Emacs: symbols, numbers, texts, lists, vectors and user pointers in a growing table, an
-- exit that is set only while none is pending, and counted global references.
use emacs_module_rs.Base.{
  ℕ, ◌+◌, ◌≤◌, ℤ, pos, negsuc, true, false, ◌≡◌, refl, Option, none, some, List, [], ◌∷◌, ◌++◌,
  ◌==◌, ltb, length, get_elem?, if◌then◌else◌, arith,
}
use emacs_module_rs.Machine.{
  Bytes, Raw, Address, FuncallExit, exit_of, Copied, Emacs, ExitLaws, RefLaws, World, shared,
}
use emacs_module_rs.Names.{equal_bytes}
use emacs_module_rs.Func.Defining.{Body}
use emacs_module_rs.Exit.Laws.{Pending, quiet, signalled, thrown}
use emacs_module_rs.Lifetime.Drop.{count}

pub data Object : Type 0 where
  symbol text : Bytes → Object
  int : ℤ → Object
  float : ℕ → Object
  lisp_list vec : List Raw → Object
  user_ptr : Option Address → Address → Object
  function : Body → Object

pub record Toy : Type 0 where
  pub exit : Pending
  pub refs : List Raw
  pub objects : List Object
  pub cells : Bytes → Option Body

abbrev pub toy_refs : Raw → Toy → ℕ
toy_refs r s = count r s.refs

abbrev exit_read : Pending → FuncallExit
exit_read quiet = exit_of 0 0 0
exit_read (signalled a b) = exit_of 1 a b
exit_read (thrown a b) = exit_of 2 a b

abbrev set_exit : Pending → Pending → Pending
set_exit quiet new = new
set_exit (signalled a b) new = signalled a b
set_exit (thrown a b) new = thrown a b

abbrev make_ref : Pending → Raw → Toy → Raw × Toy
make_ref quiet v s = (v, record s { refs = v ∷ s.refs })
make_ref (signalled _ _) v s = (0, s)
make_ref (thrown _ _) v s = (0, s)

abbrev remove_ref : Raw → List Raw → List Raw
remove_ref g [] = []
remove_ref g (x ∷ xs) = if x == g then xs else x ∷ remove_ref g xs

abbrev free_ref : Pending → Raw → Toy → Unit {0} × Toy
free_ref quiet g s = (tt, record s { refs = remove_ref g s.refs })
free_ref (signalled _ _) g s = (tt, s)
free_ref (thrown _ _) g s = (tt, s)

-- The value of an object is its place in the table.
abbrev new : Object → Toy → Raw × Toy
new o s = (length s.objects, record s { objects = s.objects ++ o ∷ [] })

abbrev raise : Pending → Toy → Raw × Toy
raise p s = (0, record s { exit = set_exit s.exit p })

-- `fset`, of a symbol and a function.
abbrev pub set_cell : Option Object → Option Object → Toy → Raw × Toy
set_cell (some (symbol name)) (some (function body)) s =
    (0, record s { cells = λ n. if equal_bytes name n then some body else s.cells n })
set_cell _ _ s = raise (signalled 31 32) s

abbrev pub set_cell_of : List Raw → Toy → Raw × Toy
set_cell_of (name ∷ func ∷ []) s = set_cell (get_elem? s.objects name) (get_elem? s.objects func) s
set_cell_of _ s = raise (signalled 31 32) s

-- A function is known by the first letter of its name: `list`, `signal`, `throw` and `fset`.
abbrev pub apply : Option Object → List Raw → Toy → Raw × Toy
apply (some (symbol (c ∷ _))) args s =
    if c == b'l'
    then new (lisp_list args) s
    else if c == b's'
    then raise (signalled 71 72) s
    else if c == b't'
    then raise (thrown 81 82) s
    else if c == b'f'
    then set_cell_of args s
    else (0, s)
apply _ args s = raise (signalled 61 62) s

abbrev int_of : Option Object → ℤ
int_of (some (int x)) = x
int_of _ = pos 0

abbrev copy_of : Option Object → Option Bytes → ℕ → Copied
copy_of (some (text s)) none len = record { done = true; buffer = []; len = length s + 1 }
copy_of (some (text s)) (some buffer) len = record {
  done = true;
  buffer = s ++ 0 ∷ [];
  len = length s + 1;
}
copy_of _ buffer len = record { done = false; buffer = []; len = len }

-- What is no user pointer is refused with a signal.
abbrev pointer_of : Option Object → Toy → Address × Toy
pointer_of (some (user_ptr _ p)) s = (p, s)
pointer_of _ s = raise (signalled 41 42) s

abbrev finalizer_of : Option Object → Toy → Option Address × Toy
finalizer_of (some (user_ptr f _)) s = (f, s)
finalizer_of _ s = (none, (raise (signalled 41 42) s).1)

abbrev elements_of : Option Object → List Raw
elements_of (some (vec xs)) = xs
elements_of _ = []

abbrev element : Option Raw → Toy → Raw × Toy
element (some r) s = (r, s)
element none s = raise (signalled 51 52) s

abbrev nth : ℤ → List Raw → Option Raw
nth (pos n) xs = get_elem? xs n
nth (negsuc n) xs = none

instance abbrev pub toy : Emacs Toy
toy = record {
  make_global_ref = λ v s. make_ref s.exit v s;
  free_global_ref = λ g s. free_ref s.exit g s;
  non_local_exit_get = λ s. exit_read s.exit;
  non_local_exit_clear = λ s. record s { exit = quiet };
  non_local_exit_signal = λ a b s. record s { exit = set_exit s.exit (signalled a b) };
  non_local_exit_throw = λ a b s. record s { exit = set_exit s.exit (thrown a b) };
  make_function = λ min max f doc p s.
      new (function (record { function = f; min = min; max = max; doc = doc; details = p })) s;
  funcall = λ f args s. apply (get_elem? s.objects f) args s;
  intern = λ name s. new (symbol name) s;
  type_of = λ v s. (0, s);
  is_not_nil = λ v s. if v == 0 then false else true;
  eq = λ a b s. a == b;
  extract_integer = λ v s. (int_of (get_elem? s.objects v), s);
  make_integer = λ x s. new (int x) s;
  extract_float = λ v s. (0, s);
  make_float = λ x s. new (float x) s;
  copy_string_contents = λ v buffer len s. (copy_of (get_elem? s.objects v) buffer len, s);
  make_string = λ b s. new (text b) s;
  make_user_ptr = λ f p s. new (user_ptr f p) s;
  get_user_ptr = λ v s. pointer_of (get_elem? s.objects v) s;
  get_user_finalizer = λ v s. finalizer_of (get_elem? s.objects v) s;
  vec_get = λ v i s. element (nth i (elements_of (get_elem? s.objects v))) s;
  vec_set = λ v i x s. (tt, s);
  vec_size = λ v s. (pos (length (elements_of (get_elem? s.objects v))), s);
}

pub toy-ExitLaws : ExitLaws Toy
toy-ExitLaws = record {
  status_known = λ s. ground arith;
  get-clear = λ s. refl;
  get-signal = λ a b s q. ground arith;
  get-throw = λ a b s q. ground arith;
}

count-remove_ref :
    (g r : Raw) (xs : List Raw)
    → (if g == r then 1 else 0) ≤ count r xs
    → (if g == r then 1 else 0) + count r (remove_ref g xs) ≡ count r xs
unfolding count
count-remove_ref g r [] h = ground arith
count-remove_ref g r (x ∷ xs) h = ground (arith, count-remove_ref g r xs)

pub toy-RefLaws : RefLaws Toy toy_refs
unfolding count
toy-RefLaws = record {
  make-adds = λ v s r q. ground arith;
  make-IsQuiet = λ v s q. ground arith;
  free-removes = λ g s r q held. ground (arith, count-remove_ref g r s.refs);
  free-IsQuiet = λ g s q. ground arith;
  refs-clear = λ s r. refl;
  refs-signal = λ a b s r. refl;
  refs-throw = λ a b s r. refl;
}

-- After loading: the objects at 0 to 12 are what the statics hold, then come the functions
-- `signal` and `throw`.
abbrev pub loaded : World Toy
loaded = record {
  emacs = record {
    exit = quiet;
    refs = [];
    objects =
        symbol (b'n' ∷ [])
        ∷ symbol (b't' ∷ [])
        ∷ symbol (b'e' ∷ [])
        ∷ symbol (b'r' ∷ [])
        ∷ symbol (b'p' ∷ [])
        ∷ symbol (b'w' ∷ [])
        ∷ symbol (b'c' ∷ [])
        ∷ symbol (b'c' ∷ [])
        ∷ symbol (b'c' ∷ [])
        ∷ symbol (b'v' ∷ [])
        ∷ symbol (b'm' ∷ [])
        ∷ symbol (b'l' ∷ [])
        ∷ symbol (b'm' ∷ [])
        ∷ symbol (b's' ∷ [])
        ∷ symbol (b't' ∷ [])
        ∷ [];
    cells = λ n. none;
  };
  protected = none;
  globals = λ name. if ltb name 13 then some name else none;
  has_fixed_gc_bug = none;
  prefix = ([], b'-' ∷ []);
  mod_in_name = true;
  borrows = λ cell. shared 0;
}

-- No function makes or frees a reference.
refs-apply : (o : Option Object) (args : List Raw) (s : Toy) → (apply o args s).1.refs ≡ s.refs
refs-apply o args s = ground arith

pub refs-funcall : (f : Raw) (args : List Raw) (s : Toy) → (toy.funcall f args s).1.refs ≡ s.refs
refs-funcall f args s = refs-apply (get_elem? s.objects f) args s

refs-pointer_of : (o : Option Object) (s : Toy) → (pointer_of o s).1.refs ≡ s.refs
refs-pointer_of o s = ground arith

refs-finalizer_of : (o : Option Object) (s : Toy) → (finalizer_of o s).1.refs ≡ s.refs
refs-finalizer_of o s = ground arith

pub refs-get_user_ptr : (v : Raw) (s : Toy) → (toy.get_user_ptr v s).1.refs ≡ s.refs
refs-get_user_ptr v s = refs-pointer_of (get_elem? s.objects v) s

pub refs-get_user_finalizer : (v : Raw) (s : Toy) → (toy.get_user_finalizer v s).1.refs ≡ s.refs
refs-get_user_finalizer v s = refs-finalizer_of (get_elem? s.objects v) s
