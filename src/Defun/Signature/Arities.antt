-- ===== src/Defun/Signature/Arities.antt =====
-- What `check_signature` accepts, and the arguments that the wrapper then finds.
use emacs_module_rs.Base.{
  ℕ, zero, suc, ◌+◌, ◌≤◌, ◌<◌, ◌≡◌, refl, ap, Bool, true, false, Bool-cases, inl, inr, Option, none,
  some, List, [], ◌∷◌, ◌++◌, length, length-append, if◌then◌else◌, arith,
}
use emacs_module_rs.Machine.{Bytes}
use emacs_module_rs.Defun.Signature.{
  RustType, Pattern, ident, wild, other_pattern, FnArg, typed, receiver, Arg, env, val, report_if,
  Checking, is_env, check_env, push_val, check_val, check_arg, check_args, start_checking,
  CheckedSignature, checked, accepted, check_signature, is_reference, negated, output_errors,
}
use mathlib.Core.List.{append-nil}

-- The places of the values among the arguments, in order, and how many are the environment.
unfoldable pub nths : List Arg → List ℕ
nths [] = []
nths (env ∷ rest) = nths rest
nths (val _ nth _ ∷ rest) = nth ∷ nths rest

pub envs : List Arg → ℕ
envs [] = 0
envs (env ∷ rest) = envs rest + 1
envs (val _ _ _ ∷ rest) = envs rest

-- 0, 1, … , n - 1.
pub range : ℕ → List ℕ
range zero = []
range (suc n) = range n ++ n ∷ []

nths-append : (xs ys : List Arg) → nths (xs ++ ys) ≡ nths xs ++ nths ys
unfolding nths
nths-append [] ys = refl
nths-append (env ∷ xs) ys = nths-append xs ys
nths-append (val _ nth _ ∷ xs) ys = ap (λ r. nth ∷ r) (nths-append xs ys)

envs-append : (xs ys : List Arg) → envs (xs ++ ys) ≡ envs xs + envs ys
unfolding envs
envs-append [] ys = omega arith
envs-append (env ∷ xs) ys = omega (arith, envs-append xs ys)
envs-append (val _ _ _ ∷ xs) ys = envs-append xs ys

abbrev IsEmpty : List Bytes → Type 0
IsEmpty [] = Unit
IsEmpty (_ ∷ _) = ⊥

snoc-not-IsEmpty : (errors : List Bytes) (e : Bytes) → ¬ IsEmpty (errors ++ e ∷ [])
snoc-not-IsEmpty [] e h = h
snoc-not-IsEmpty (x ∷ errors) e h = h

report_if-IsEmpty :
    (b : Bool) (m : Bytes) (errors : List Bytes)
    → IsEmpty (report_if b m errors)
    → (b ≡ false) × IsEmpty errors
report_if-IsEmpty true m errors h = absurd (snoc-not-IsEmpty errors m h)
report_if-IsEmpty false m errors h = (refl, h)

abbrev one_if : Bool → ℕ
one_if b = if b then 1 else 0

-- What holds of the variables of `check_signature` before each argument, `n` arguments in.
record IsChecked (n : ℕ) (c : Checking) : Type 0 where
  places : nths c.args ≡ range c.i
  one_env : IsEmpty c.errors → envs c.args ≡ one_if c.has_env
  all_kept : IsEmpty c.errors → length c.args ≡ n

module _ (n : ℕ) (c : Checking) (h : IsChecked n c) where
  check_env-IsChecked : (ty : RustType) → IsChecked (n + 1) (check_env ty c)
  unfolding check_env nths envs
  check_env-IsChecked ty = record {
    places = rw (nths-append, append-nil) h.places;
    one_env = λ e.
        let (none_yet, e') = report_if-IsEmpty c.has_env _ _ e in
        let (_, e'') = report_if-IsEmpty (negated (is_reference ty)) _ c.errors e' in
        let before = h.one_env e'' in
        let none_at_all : one_if c.has_env ≡ 0 = rw none_yet refl in rw envs-append (omega arith);
    all_kept = λ e.
        let (_, e') = report_if-IsEmpty c.has_env _ _ e in
        let (_, e'') = report_if-IsEmpty (negated (is_reference ty)) _ c.errors e' in
        rw length-append (omega (arith, h.all_kept e''));
  }

  push_val-IsChecked :
      (name : Option Bytes) (ty : RustType) → IsChecked (n + 1) (push_val name ty c)
  unfolding push_val nths envs range
  push_val-IsChecked name ty = record {
    places =
        let next : c.i + 1 ≡ suc c.i = omega arith in
        rw (nths-append, next) (ap (λ r. r ++ c.i ∷ []) h.places);
    one_env = λ e. rw envs-append (omega (arith, h.one_env e));
    all_kept = λ e. rw length-append (omega (arith, h.all_kept e));
  }

  reported : (e : Bytes) → IsChecked (n + 1) (record c { errors = c.errors ++ e ∷ [] })
  reported e = record {
    places = h.places;
    one_env = λ e'. absurd (snoc-not-IsEmpty c.errors e e');
    all_kept = λ e'. absurd (snoc-not-IsEmpty c.errors e e');
  }

  check_val-IsChecked : (pat : Pattern) (ty : RustType) → IsChecked (n + 1) (check_val pat ty c)
  unfolding check_val
  check_val-IsChecked (ident id) ty = push_val-IsChecked (some id) ty
  check_val-IsChecked wild ty = push_val-IsChecked none ty
  check_val-IsChecked other_pattern ty = reported _

  check_arg-IsChecked : (a : FnArg) → IsChecked (n + 1) (check_arg a c)
  unfolding check_arg
  check_arg-IsChecked receiver = reported _
  check_arg-IsChecked (typed pat ty) = elim (Bool-cases (is_env ty)) [
    | inl yes_env ↦ rw yes_env (check_env-IsChecked ty)
    | inr no_env ↦ rw no_env (check_val-IsChecked pat ty)
  ]

check_args-IsChecked :
    (inputs : List FnArg) (n : ℕ) (c : Checking)
    → IsChecked n c
    → IsChecked (n + length inputs) (check_args inputs c)
unfolding check_args
check_args-IsChecked [] n c h = let e : n + 0 ≡ n = omega arith in rw e h
check_args-IsChecked (a ∷ rest) n c h =
    let e : n + suc (length rest) ≡ n + 1 + length rest = omega arith in
    rw e (check_args-IsChecked rest (n + 1) (check_arg a c) (check_arg-IsChecked n c h a))

start-IsChecked : IsChecked 0 start_checking
unfolding nths envs range
start-IsChecked = record { places = refl; one_env = λ e. refl; all_kept = λ e. refl }

-- What an accepted signature is.
pub record IsNumbered (inputs : List FnArg) (r : CheckedSignature) : Type 0 where
  pub numbered : nths r.args ≡ range r.start
  pub same_arities : r.end ≡ r.start
  pub env_once : envs r.args ≤ 1
  pub one_each : length r.args ≡ length inputs

checked_inv :
    (errors : List Bytes) (c : Checking) (r : CheckedSignature)
    → checked errors c ≡ accepted r
    → IsEmpty errors × (r ≡ record { args = c.args; start = c.i; end = c.i })
checked_inv [] c r e = (tt, cc e)
checked_inv (x ∷ errors) c r e = absurd (cc e)

output_errors-IsEmpty :
    (b : Bool) (errors : List Bytes) → IsEmpty (output_errors b errors) → IsEmpty errors
output_errors-IsEmpty true errors h = h
output_errors-IsEmpty false errors h = absurd (snoc-not-IsEmpty errors _ h)

one_if_le : (b : Bool) → one_if b ≤ 1
one_if_le b = ground arith

-- If check_signature accepts a signature, it makes one argument of each input, at most one of
-- them the environment, numbers the others 0, 1, ... in order, and both arities are their
-- number.
pub check_signature-IsNumbered :
    (inputs : List FnArg) (has_output : Bool) (r : CheckedSignature)
    → check_signature inputs has_output ≡ accepted r
    → IsNumbered inputs r
unfolding check_signature
check_signature-IsNumbered inputs has_output r e =
    let c = check_args inputs start_checking in
    let h = check_args-IsChecked inputs 0 start_checking start-IsChecked in
    let (clear, is) = checked_inv (output_errors has_output c.errors) c r e in
    let empty = output_errors-IsEmpty has_output c.errors clear in
    rw is (record {
      numbered = h.places;
      same_arities = refl;
      env_once = omega (arith, h.one_env empty, one_if_le c.has_env);
      one_each = omega (arith, h.all_kept empty);
    })

abbrev pub AllBelow : ℕ → List ℕ → Type 0
AllBelow n [] = Unit
AllBelow n (x ∷ xs) = (x < n) × AllBelow n xs

AllBelow-snoc : (n : ℕ) (xs : List ℕ) → AllBelow n xs → AllBelow (suc n) (xs ++ n ∷ [])
AllBelow-snoc n [] h = (omega arith, tt)
AllBelow-snoc n (x ∷ xs) (less, h) = (omega arith, AllBelow-snoc n xs h)

AllBelow-range : (n : ℕ) → AllBelow n (range n)
unfolding range
AllBelow-range zero = tt
AllBelow-range (suc n) = AllBelow-snoc n (range n) (AllBelow-range n)

-- Every place is below the arity.
pub AllBelow-nths :
    (inputs : List FnArg) (has_output : Bool) (r : CheckedSignature)
    → check_signature inputs has_output ≡ accepted r
    → AllBelow r.start (nths r.args)
AllBelow-nths inputs has_output r e =
    rw (check_signature-IsNumbered inputs has_output r e).numbered (AllBelow-range r.start)
