-- ===== src/Lifetime/Rooted/Calls.antt =====
-- The operations that protect the value that they give (src/value.rs, src/call.rs).
use mathlib.Core.Path.{subst}
use emacs_module_rs.Base.{ℕ, ◌≡◌, refl, Option, none, some, List, ◌++◌}
use emacs_module_rs.Machine.{
  Bytes, Raw, Emacs, World, Outcome, ok, err, panicked, Act, pure, ◌>>=◌, continue, continue-ok,
}
use emacs_module_rs.Exit.{raw_call}
use emacs_module_rs.Value.{
  Value, value, protect, raw_call_value, raw_call_value_unprotected, cstring, cstring_or, find_nul,
  intern,
}
use emacs_module_rs.Call.{LispArgs, call_unprotected, call_value, call, call_name}
use emacs_module_rs.Convert.Text.{str_into_lisp}
use emacs_module_rs.Lifetime.Rooted.{
  Extends, IsRooted, Protects, ok-injective, IsRooted-later, Extends-pure, Extends-fail,
  Extends-bind, Extends-raw_call, Protects-protect,
}

module _ {S : Type 0} ⦃E : Emacs S⦄ where
  Protects-continue :
      {A : Type 0} (o : Outcome A) (f : A → Act S Value) (w : World S) (roots : List Raw)
      (v : Value)
      → ((a : A) → Protects (f a))
      → w.protected ≡ some roots
      → (continue o f w).0 ≡ ok v
      → IsRooted v (continue o f w).1
  Protects-continue (ok a) f w roots v kf p e = (kf a).rooted w roots v p e
  Protects-continue (err x) f w roots v kf p e = cc e
  Protects-continue (panicked x) f w roots v kf p e = cc e

  -- What ends by protecting the value that it gives.
  pub Protects-bind :
      {A : Type 0} (m : Act S A) (f : A → Act S Value)
      → Extends m
      → ((a : A) → Protects (f a))
      → Protects (m >>= f)
  Protects-bind m f km kf = record {
    extends = Extends-bind m f km (λ a. (kf a).extends);
    rooted = λ w roots v p e.
        let (extra, p1) = km.at w roots p in
        Protects-continue (m w).0 f (m w).1 (roots ++ extra) v kf p1 e;
  }

  Protects-after :
      {A : Type 0} (o : Outcome Value) (f : Value → Act S A) (w : World S) (v : Value)
      → ((x : Value) → Extends (f x))
      → ((x : Value) → o ≡ ok x → IsRooted x w)
      → (continue o (λ x. f x >>= λ _. pure x) w).0 ≡ ok v
      → IsRooted v (continue o (λ x. f x >>= λ _. pure x) w).1
  Protects-after (ok x) f w v kf h e =
      let (a, began, last) = continue-ok (f x w).0 (λ _. pure x) (f x w).1 v e in
      let same : x ≡ v = ok-injective last in
      subst (λ (u : Value). IsRooted {S = S} u ((f x >>= λ _. pure x) w).1) same
        (IsRooted-later (f x >>= λ _. pure x) x w
          (Extends-bind (f x) (λ _. pure x) (kf x) (λ a. Extends-pure x)) (h x refl))
  Protects-after (err x) f w v kf h e = cc e
  Protects-after (panicked x) f w v kf h e = cc e

  -- What is protected, and used before it is given.
  pub Protects-then :
      {A : Type 0} (m : Act S Value) (f : Value → Act S A)
      → Protects m
      → ((x : Value) → Extends (f x))
      → Protects (m >>= λ x. f x >>= λ _. pure x)
  Protects-then m f km kf = record {
    extends =
        Extends-bind m _ km.extends
          (λ x. Extends-bind (f x) (λ _. pure x) (kf x) (λ a. Extends-pure x));
    rooted = λ w roots v p e. Protects-after (m w).0 f (m w).1 v kf (λ x. km.rooted w roots x p) e;
  }

  pub Protects-raw_call_value : (f : S → Raw × S) → Protects (raw_call_value f)
  unfolding raw_call_value raw_call_value_unprotected
  Protects-raw_call_value f =
      Protects-bind _ protect
        (Extends-bind (raw_call f) (λ raw. pure (value raw)) (Extends-raw_call f)
          (λ raw. Extends-pure (value raw)))
        Protects-protect

  pub Protects-call_value :
      (f : Value) (args : LispArgs S) → Extends args → Protects (call_value f args)
  unfolding call_value call_unprotected raw_call_value_unprotected
  Protects-call_value f args h =
      Protects-bind _ protect
        (Extends-bind args _ h (λ raws.
          Extends-bind (raw_call (E.funcall f.raw raws)) (λ raw. pure (value raw))
            (Extends-raw_call _) (λ raw. Extends-pure (value raw))))
        Protects-protect

  Extends-cstring_or : (s : Bytes) (at : Option ℕ) → Extends {S = S} (cstring_or s at)
  unfolding cstring_or
  Extends-cstring_or s none = Extends-pure s
  Extends-cstring_or s (some at) = Extends-fail _

  Extends-cstring : (s : Bytes) → Extends {S = S} (cstring s)
  unfolding cstring
  Extends-cstring s = Extends-cstring_or s (find_nul 0 s)

  pub Protects-intern : (name : Bytes) → Protects {S = S} (intern name)
  unfolding intern
  Protects-intern name =
      Protects-bind (cstring name) _ (Extends-cstring name)
        (λ s. Protects-raw_call_value (E.intern s))

  pub Protects-call_name :
      (name : Bytes) (args : LispArgs S) → Extends args → Protects (call_name name args)
  unfolding call_name call
  Protects-call_name name args h =
      Protects-bind (intern name) _ (Protects-intern name).extends
        (λ f. Protects-call_value f args h)

  pub Protects-str : (s : Bytes) → Protects {S = S} (str_into_lisp s)
  unfolding str_into_lisp
  Protects-str s = Protects-raw_call_value (E.make_string s)
