-- ===== src/Frames.antt =====
-- What most operations leave as it is: they change what Emacs knows and the list of protected values,
-- and no static or borrow flag of the Rust side.
pub mod Calls
pub mod Drop
pub mod Boundary
use emacs_module_rs.Base.{
  ℕ, ◌≡◌, refl, ◌∙◌, Bool, Option, none, some, List, arith, true, false, if◌then◌else◌,
}
use emacs_module_rs.Machine.{
  Bytes, Raw, Address, Emacs, ExitLaws, Borrow, Static, World, Outcome, ok, err, panicked, Act,
  pure, fail, panic, gets, ◌>>=◌, continue, Error, Payload, attempt,
}
use emacs_module_rs.Exit.{handle_exit, raw_call}
use emacs_module_rs.Value.{
  Value, cstring, cstring_or, find_nul, protect, protect_in, raw_call_value,
  raw_call_value_unprotected, intern,
}
use emacs_module_rs.Call.{LispArgs, values_args, call_unprotected, call_value, call, call_name}

-- The statics, and the flags.
pub record Frame : Type 0 where
  pub globals : Static → Option Raw
  pub has_fixed_gc_bug : Option Bool
  pub prefix : Bytes × Bytes
  pub mod_in_name : Bool
  pub borrows : Address → Borrow

abbrev pub frame : {S : Type 0} → World S → Frame
frame w = record {
  globals = w.globals;
  has_fixed_gc_bug = w.has_fixed_gc_bug;
  prefix = w.prefix;
  mod_in_name = w.mod_in_name;
  borrows = w.borrows;
}

pub record KeepsFrame {S A : Type 0} (m : Act S A) : Type 0 where
  pub at : (w : World S) → frame (m w).1 ≡ frame w

module _ {S A : Type 0} where
  pub KeepsFrame-pure : (a : A) → KeepsFrame (pure {S = S} a)
  KeepsFrame-pure a = record { at = λ w. refl }

  pub KeepsFrame-fail : (e : Error) → KeepsFrame (fail {S = S} {A = A} e)
  KeepsFrame-fail e = record { at = λ w. refl }

  pub KeepsFrame-panic : (p : Payload) → KeepsFrame (panic {S = S} {A = A} p)
  KeepsFrame-panic p = record { at = λ w. refl }

  pub KeepsFrame-gets : (f : World S → A) → KeepsFrame (gets f)
  KeepsFrame-gets f = record { at = λ w. refl }

  pub KeepsFrame-attempt : (m : Act S A) → KeepsFrame m → KeepsFrame (attempt m)
  KeepsFrame-attempt m k = record { at = k.at }

  pub KeepsFrame-if :
      (b : Bool) (m n : Act S A) → KeepsFrame m → KeepsFrame n → KeepsFrame (if b then m else n)
  KeepsFrame-if true m n h k = h
  KeepsFrame-if false m n h k = k

module _ {S A B : Type 0} where
  KeepsFrame-continue :
      (o : Outcome A) (f : A → Act S B) (w : World S)
      → ((a : A) → KeepsFrame (f a))
      → frame (continue o f w).1 ≡ frame w
  KeepsFrame-continue (ok a) f w k = (k a).at w
  KeepsFrame-continue (err e) f w k = refl
  KeepsFrame-continue (panicked p) f w k = refl

  pub KeepsFrame-bind :
      (m : Act S A) (f : A → Act S B)
      → KeepsFrame m
      → ((a : A) → KeepsFrame (f a))
      → KeepsFrame (m >>= f)
  KeepsFrame-bind m f km kf = record {
    at = λ w. KeepsFrame-continue (m w).0 f (m w).1 kf ∙ km.at w;
  }

module _ {S : Type 0} where
  KeepsFrame-cstring_or : (s : Bytes) (at : Option ℕ) → KeepsFrame {S = S} (cstring_or s at)
  unfolding cstring_or
  KeepsFrame-cstring_or s none = KeepsFrame-pure s
  KeepsFrame-cstring_or s (some at) = KeepsFrame-fail _

  pub KeepsFrame-cstring : (s : Bytes) → KeepsFrame {S = S} (cstring s)
  unfolding cstring
  KeepsFrame-cstring s = KeepsFrame-cstring_or s (find_nul 0 s)

module _ {S : Type 0} ⦃E : Emacs S⦄ where
  protect_in-frame :
      (roots : Option (List Raw)) (v : Value) (w : World S)
      → frame (protect_in roots v w).1 ≡ frame w
  protect_in-frame none v w = refl
  protect_in-frame (some roots) v w = refl

  pub KeepsFrame-protect : (v : Value) → KeepsFrame {S = S} (protect v)
  unfolding protect
  KeepsFrame-protect v = record { at = λ w. protect_in-frame w.protected v w }

module _ {S : Type 0} ⦃E : Emacs S⦄ (exits : ExitLaws S) where
  handle_exit-frame : {A : Type 0} (a : A) (w : World S) → frame (handle_exit a w).1 ≡ frame w
  unfolding handle_exit
  handle_exit-frame a w = ground (arith, exits.status_known w.emacs)

  pub KeepsFrame-raw_call : {A : Type 0} (f : S → A × S) → KeepsFrame (raw_call f)
  unfolding raw_call
  KeepsFrame-raw_call f = record {
    at = λ w. handle_exit-frame (f w.emacs).0 (record w { emacs = (f w.emacs).1 });
  }

pub ruleset frame_rules = (
  KeepsFrame-pure, KeepsFrame-fail, KeepsFrame-panic, KeepsFrame-gets, KeepsFrame-attempt,
  KeepsFrame-bind, KeepsFrame-cstring, KeepsFrame-protect, KeepsFrame-raw_call,
)

module _ {S : Type 0} ⦃E : Emacs S⦄ (exits : ExitLaws S) where
  pub KeepsFrame-raw_call_value : (f : S → Raw × S) → KeepsFrame (raw_call_value f)
  unfolding raw_call_value raw_call_value_unprotected
  KeepsFrame-raw_call_value f = search frame_rules depth 7

  pub KeepsFrame-intern : (name : Bytes) → KeepsFrame {S = S} (intern name)
  unfolding intern
  KeepsFrame-intern name = search (frame_rules, KeepsFrame-raw_call_value) depth 7

  pub KeepsFrame-call_value :
      (f : Value) (args : LispArgs S) → KeepsFrame args → KeepsFrame (call_value f args)
  unfolding call_value call_unprotected raw_call_value_unprotected
  KeepsFrame-call_value f args h = search frame_rules depth 7

  pub KeepsFrame-call_name :
      (name : Bytes) (vs : List Value) → KeepsFrame {S = S} (call_name name (values_args vs))
  unfolding call_name call
  KeepsFrame-call_name name vs =
      KeepsFrame-bind (intern name) (λ f. call_value f (values_args vs)) (KeepsFrame-intern name)
        (λ f. KeepsFrame-call_value f (values_args vs) (KeepsFrame-pure _))
