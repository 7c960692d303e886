-- ===== src/Defun/Wrapper/Exclusive.antt =====
-- The references that a function is given: none of them aliases a mutable one.
use emacs_module_rs.Base.{ℕ, zero, suc, ◌≡◌, refl, sym, ap, ◌∙◌, List, [], ◌∷◌, ◌++◌}
use emacs_module_rs.Machine.{
  Address, Emacs, ExitLaws, Borrow, shared, exclusive, World, Outcome, ok, err, panicked, Act,
  ◌>>=◌, continue,
}
use emacs_module_rs.Value.{Value}
use emacs_module_rs.UserPtr.{
  Transfer, ref_from_lisp, into_ref, into_ref_mut, try_borrow, try_borrow_mut, set_borrow, release,
}
use emacs_module_rs.Func.{CallArgs, get_arg}
use emacs_module_rs.Frames.{Frame, KeepsFrame}
use emacs_module_rs.Defun.Signature.{Arg, env, val, owned, ref, ref_mut}
use emacs_module_rs.Defun.Wrapper.{
  Passed, env_ref, by_value, borrowed, borrowed_mut, ArgTypes, guarded, bind_args, wrapper,
}
use emacs_module_rs.Defun.Wrapper.Restores.{continue_assoc, KeepsFrame-ref, KeepsFrame-get_arg}
use emacs_module_rs.Defun.Wrapper.Held.{
  IsExclusive, IsExclusive-snoc, Holds, Holds-snoc, Holds-read, Holds-write, IsRead-set_flag,
  set_flag-exclusive, AllApart,
}

module _ {T : Type 0} where
  apart_env : (ps : List (Passed T)) → AllApart ps env_ref
  apart_env [] = tt
  apart_env (env_ref ∷ ps) = (tt, apart_env ps)
  apart_env (by_value _ ∷ ps) = (tt, apart_env ps)
  apart_env (borrowed _ ∷ ps) = (tt, apart_env ps)
  apart_env (borrowed_mut _ ∷ ps) = (tt, apart_env ps)

  apart_value : (y : T) (ps : List (Passed T)) → AllApart ps (by_value y)
  apart_value y [] = tt
  apart_value y (env_ref ∷ ps) = (tt, apart_value y ps)
  apart_value y (by_value _ ∷ ps) = (tt, apart_value y ps)
  apart_value y (borrowed _ ∷ ps) = (tt, apart_value y ps)
  apart_value y (borrowed_mut _ ∷ ps) = (tt, apart_value y ps)

module _ {S A B : Type 0} (f g : A → Act S B) where
  continue_cong :
      (o : Outcome A) (w : World S) → ((a : A) → f a w ≡ g a w) → continue o f w ≡ continue o g w
  continue_cong (ok a) w h = h a
  continue_cong (err e) w h = refl
  continue_cong (panicked p) w h = refl

  -- After what keeps the flags.
  bind_cong :
      (m : Act S A) (w : World S)
      → KeepsFrame m
      → ((a : A) (w' : World S) → w'.borrows ≡ w.borrows → f a w' ≡ g a w')
      → (m >>= f) w ≡ (m >>= g) w
  bind_cong m w k h =
      continue_cong (m w).0 (m w).1 (λ a. h a (m w).1 (ap (λ (x : Frame). x.borrows) (k.at w)))

guarded_cong :
    {S A : Type 0} (cell : Address) (m n : Act S A) (w : World S)
    → m w ≡ n w
    → guarded cell m w ≡ guarded cell n w
guarded_cong {S = S} {A = A} cell m n w e =
    ap (λ (r : Outcome A × World S). (r.0, release cell r.1)) e

module _ {S T A : Type 0} (f g : Address → Act S A) (ps : List (Passed T)) (cell : Address) where
  -- What has to be shown of the rest, for a reader and for a writer.
  abbrev AgreesRead : Type 0
  AgreesRead =
      (w' : World S)
      → Holds w'.borrows (ps ++ borrowed cell ∷ [])
      → IsExclusive (ps ++ borrowed cell ∷ [])
      → f cell w' ≡ g cell w'

  abbrev AgreesWrite : Type 0
  AgreesWrite =
      (w' : World S)
      → Holds w'.borrows (ps ++ borrowed_mut cell ∷ [])
      → IsExclusive (ps ++ borrowed_mut cell ∷ [])
      → f cell w' ≡ g cell w'

module _ {S T A : Type 0} (f g : Address → Act S A) (ps : List (Passed T)) (cell : Address)
    (w : World S) (held : Holds w.borrows ps) (apart : IsExclusive ps) where
  try_borrow_cong :
      (b : Borrow)
      → w.borrows cell ≡ b
      → AgreesRead f g ps cell
      → (try_borrow cell b >>= λ c. guarded c (f c)) w
        ≡ (try_borrow cell b >>= λ c. guarded c (g c)) w
  try_borrow_cong (shared n) e h =
      let (held', new) = Holds-read w.borrows cell n ps e held in
      guarded_cong cell (f cell) (g cell) (set_borrow cell (shared (suc n)) w) (
        h (set_borrow cell (shared (suc n)) w)
          (Holds-snoc _ ps (borrowed cell) held' (IsRead-set_flag w.borrows cell n))
          (IsExclusive-snoc ps (borrowed cell) apart new))
  try_borrow_cong exclusive e h = refl

  try_borrow_mut_cong :
      (b : Borrow)
      → w.borrows cell ≡ b
      → AgreesWrite f g ps cell
      → (try_borrow_mut cell b >>= λ c. guarded c (f c)) w
        ≡ (try_borrow_mut cell b >>= λ c. guarded c (g c)) w
  try_borrow_mut_cong (shared zero) e h =
      let (held', new) = Holds-write w.borrows cell ps e held in
      guarded_cong cell (f cell) (g cell) (set_borrow cell exclusive w) (
        h (set_borrow cell exclusive w)
          (Holds-snoc _ ps (borrowed_mut cell) held' (set_flag-exclusive w.borrows cell))
          (IsExclusive-snoc ps (borrowed_mut cell) apart new))
  try_borrow_mut_cong (shared (suc n)) e h = refl
  try_borrow_mut_cong exclusive e h = refl

module _ {S T A : Type 0} ⦃E : Emacs S⦄ (exits : ExitLaws S) (f g : Address → Act S A)
    (ps : List (Passed T)) (ty : Transfer) (v : Value) (w : World S) (held : Holds w.borrows ps)
    (apart : IsExclusive ps) where
  into_ref_cong :
      ((cell : Address) → AgreesRead f g ps cell)
      → (into_ref ty v >>= λ c. guarded c (f c)) w ≡ (into_ref ty v >>= λ c. guarded c (g c)) w
  unfolding into_ref
  into_ref_cong h =
      let (o, w1) = ref_from_lisp ty v w in
      continue_assoc _ (λ c. guarded c (f c)) o w1
      ∙ bind_cong _ _ (ref_from_lisp ty v) w (KeepsFrame-ref exits ty v) (λ cell w' e.
        let held' : Holds w'.borrows ps = rw e held in
        try_borrow_cong f g ps cell w' held' apart (w'.borrows cell) refl (h cell))
      ∙ sym (continue_assoc _ (λ c. guarded c (g c)) o w1)

  into_ref_mut_cong :
      ((cell : Address) → AgreesWrite f g ps cell)
      → (into_ref_mut ty v >>= λ c. guarded c (f c)) w
        ≡ (into_ref_mut ty v >>= λ c. guarded c (g c)) w
  unfolding into_ref_mut
  into_ref_mut_cong h =
      let (o, w1) = ref_from_lisp ty v w in
      continue_assoc _ (λ c. guarded c (f c)) o w1
      ∙ bind_cong _ _ (ref_from_lisp ty v) w (KeepsFrame-ref exits ty v) (λ cell w' e.
        let held' : Holds w'.borrows ps = rw e held in
        try_borrow_mut_cong f g ps cell w' held' apart (w'.borrows cell) refl (h cell))
      ∙ sym (continue_assoc _ (λ c. guarded c (g c)) o w1)

module _ {S T : Type 0} ⦃E : Emacs S⦄ (exits : ExitLaws S) (types : ArgTypes S T) (args : CallArgs)
    (body body' : List (Passed T) → Act S Value)
    (keeping : (n : ℕ) (v : Value) → KeepsFrame (types.from n v))
    (agree : (ps : List (Passed T)) → IsExclusive ps → body ps ≡ body' ps) where
  bind_args_cong :
      (signature : List Arg) (ps : List (Passed T)) (w : World S)
      → Holds w.borrows ps
      → IsExclusive ps
      → bind_args types args body signature ps w ≡ bind_args types args body' signature ps w
  unfolding bind_args
  bind_args_cong [] ps w h x = ap (λ (m : Act S Value). m w) (agree ps x)
  bind_args_cong (env ∷ rest) ps w h x =
      bind_args_cong rest (ps ++ env_ref ∷ []) w (Holds-snoc w.borrows ps env_ref h tt)
        (IsExclusive-snoc ps env_ref x (apart_env ps))
  bind_args_cong (val owned nth _ ∷ rest) ps w h x =
      bind_cong _ _ (get_arg args nth) w (KeepsFrame-get_arg exits args nth) (λ v w1 e1.
        bind_cong _ _ (types.from nth v) w1 (keeping nth v) (λ y w2 e2.
          let h' : Holds w2.borrows ps = rw (e2 ∙ e1) h in
          bind_args_cong rest (ps ++ by_value y ∷ []) w2
            (Holds-snoc w2.borrows ps (by_value y) h' tt)
            (IsExclusive-snoc ps (by_value y) x (apart_value y ps))))
  bind_args_cong (val ref nth _ ∷ rest) ps w h x =
      bind_cong _ _ (get_arg args nth) w (KeepsFrame-get_arg exits args nth) (λ v w1 e1.
        let h' : Holds w1.borrows ps = rw e1 h in
        into_ref_cong exits _ _ ps (types.cell nth) v w1 h' x
          (λ cell w2 h2 x2. bind_args_cong rest (ps ++ borrowed cell ∷ []) w2 h2 x2))
  bind_args_cong (val ref_mut nth _ ∷ rest) ps w h x =
      bind_cong _ _ (get_arg args nth) w (KeepsFrame-get_arg exits args nth) (λ v w1 e1.
        let h' : Holds w1.borrows ps = rw e1 h in
        into_ref_mut_cong exits _ _ ps (types.cell nth) v w1 h' x
          (λ cell w2 h2 x2. bind_args_cong rest (ps ++ borrowed_mut cell ∷ []) w2 h2 x2))

  -- A wrapper runs its function only on references of which no mutable one is to the RefCell of
  -- another, also when Lisp passes one object twice: two functions that do the same on such
  -- references are the same when they are called by the wrapper, if the conversions of owned
  -- arguments leave the borrows and the crate's statics as they are. Emacs follows ExitLaws.
  pub wrapper-IsExclusive :
      (signature : List Arg) (w : World S)
      → wrapper types args body signature w ≡ wrapper types args body' signature w
  unfolding wrapper
  wrapper-IsExclusive signature w = bind_args_cong signature [] w tt tt
