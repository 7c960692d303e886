-- ===== src/TestModule/Lifetimes/Collected.antt =====
-- Symbols that are taken out of the table of symbols, and used when the collector has run
-- (test-module/src/test_lifetime.rs).
use emacs_module_rs.Base.{ℕ, ◌≡◌, some, List, [], ◌∷◌, String}
use emacs_module_rs.Machine.{
  codes, Raw, Emacs, ExitLaws, RefLaws, World, Outcome, ok, err, panicked, Act, pure, continue,
  ◌>>=◌,
}
use emacs_module_rs.Value.{Value, intern}
use emacs_module_rs.Call.{values_args, call_name}
use emacs_module_rs.Lifetime.Balance.{IsSettled, Settles, Settles-pure, Settles-bind}
use emacs_module_rs.Lifetime.Settling.{KeepingCalls}
use emacs_module_rs.Lifetime.Settling.Calls.{Settles-call_named, Settles-intern}
use emacs_module_rs.Lifetime.Rooted.{Extends, Protects, Extends-pure}
use emacs_module_rs.Lifetime.Rooted.Calls.{Protects-then, Protects-intern, Protects-call_name}
use emacs_module_rs.TestModule.Lifetimes.{
  gc, print, create, use_back, first_or_panic, create_collect_use, uninterned, gc_after_uninterning,
}
use emacs_module_rs.TestModule.Lifetimes.Protected.{AllProtected, create_collect_use-AllProtected}

-- What holds of the state of Emacs holds after the action too.
pub record Stays {S A : Type 0} (P : S → Type 0) (m : Act S A) : Type 0 where
  pub at : (w : World S) → P w.emacs → P (m w).1.emacs

module _ {S A B : Type 0} {P : S → Type 0} where
  Stays-continue :
      (o : Outcome A) (f : A → Act S B) (w : World S)
      → ((a : A) → Stays P (f a))
      → P w.emacs
      → P (continue o f w).1.emacs
  Stays-continue (ok a) f w k h = (k a).at w h
  Stays-continue (err e) f w k h = h
  Stays-continue (panicked p) f w k h = h

  pub Stays-bind :
      (m : Act S A) (f : A → Act S B) → Stays P m → ((a : A) → Stays P (f a)) → Stays P (m >>= f)
  Stays-bind m f km kf = record { at = λ w h. Stays-continue (m w).0 f (m w).1 kf (km.at w h) }

module _ {S : Type 0} ⦃E : Emacs S⦄ {P : S → Type 0} where
  Stays-use_back :
      (using : Value → Act S Value)
      → ((v : Value) → Stays P (using v))
      → (vs : List Value) → Stays P (use_back using vs)
  unfolding use_back
  Stays-use_back using k [] = record { at = λ w h. h }
  Stays-use_back using k (x ∷ rest) =
      Stays-bind (use_back using rest) _ (Stays-use_back using k rest)
        (λ u. Stays-bind (using x) (λ v. pure tt) (k x) (λ v. record { at = λ w h. h }))

  Stays-first_or_panic : (vs : List Value) → Stays P (first_or_panic {S = S} vs)
  Stays-first_or_panic [] = record { at = λ w h. h }
  Stays-first_or_panic (x ∷ _) = record { at = λ w h. h }

  -- What the collector leaves is there when the values have been used.
  create_collect_use-collected :
      (count : ℕ) (creating : Act S Value) (using : Value → Act S Value) (w : World S)
      (vs : List Value)
      → (create count creating w).0 ≡ ok vs
      → P (gc (create count creating w).1).1.emacs
      → ((v : Value) → Stays P (using v))
      → P (create_collect_use count creating using w).1.emacs
  unfolding create_collect_use
  create_collect_use-collected count creating using w vs e h k =
      let r = gc (create count creating w).1 in
      let used : Stays P (use_back using vs >>= λ _. first_or_panic vs) =
        Stays-bind (use_back using vs) (λ _. first_or_panic vs) (Stays-use_back using k vs)
          (λ u. Stays-first_or_panic vs) in
      rw e
        (Stays-continue r.0 (λ _. use_back using vs >>= λ _. first_or_panic vs) r.1 (λ _. used) h)

module _ {S : Type 0} ⦃E : Emacs S⦄ where
  Protects-uninterned : Protects {S = S} uninterned
  Protects-uninterned =
      Protects-then (intern (codes "xyz"))
        (λ x. call_name (codes "unintern") (values_args (x ∷ []))) (Protects-intern (codes "xyz"))
        (λ x.
          (Protects-call_name (codes "unintern") (values_args (x ∷ [])) (Extends-pure _)).extends)

  Extends-print : (v : Value) → Extends {S = S} (print v)
  unfolding print
  Extends-print v =
      (Protects-call_name (codes "print") (values_args (v ∷ [])) (Extends-pure _)).extends

module _ {S : Type 0} ⦃E : Emacs S⦄ {refs : Raw → S → ℕ} (exits : ExitLaws S)
    (laws : RefLaws S refs) (calls : KeepingCalls refs) where
  Settles-named :
      (name : String) (v : Value) → Settles refs (call_name (codes name) (values_args (v ∷ [])))
  Settles-named name v =
      Settles-call_named exits laws calls (codes name) (values_args (v ∷ [])) (Settles-pure _)

  Settles-uninterned : Settles refs uninterned
  Settles-uninterned =
      Settles-bind (intern (codes "xyz")) _ (Settles-intern exits laws calls (codes "xyz")) (λ x.
        Settles-bind (call_name (codes "unintern") (values_args (x ∷ []))) (λ _. pure x)
          (Settles-named "unintern" x) (λ _. Settles-pure x))

  Settles-print : (v : Value) → Settles refs (print v)
  unfolding print
  Settles-print v = Settles-named "print" v

  -- When gc_after_uninterning has made its three symbols and taken them out of the table, in an
  -- Env that protects values and accounts for the references, each of them is protected when the
  -- collector is called, when it has run, and when the function is over, however it ends; and
  -- what the run of the collector on these symbols establishes of Emacs, and printing keeps,
  -- holds when the function is over. Emacs follows ExitLaws and RefLaws, and its calls
  -- KeepingCalls.
  pub gc_after_uninterning-AllProtected :
      (Collected : S → Type 0) (base : Raw → ℕ) (w : World S) (roots : List Raw) (vs : List Value)
      → IsSettled refs base w
      → w.protected ≡ some roots
      → (create 3 uninterned w).0 ≡ ok vs
      → Collected (gc (create 3 uninterned w).1).1.emacs
      → ((v : Value) → Stays Collected (print v))
      → let made = (create 3 uninterned w).1 in
        let over = (gc_after_uninterning w).1 in
        AllProtected refs vs made
        × AllProtected refs vs (gc made).1
        × AllProtected refs vs over
        × Collected over.emacs
  unfolding gc_after_uninterning
  gc_after_uninterning-AllProtected Collected base w roots vs h p e ran k =
      let (before, after, end) =
        create_collect_use-AllProtected exits laws calls 3 uninterned print base w roots vs
          Settles-uninterned Protects-uninterned Settles-print Extends-print h p e in
      (before, after, end, create_collect_use-collected 3 uninterned print w vs e ran k)
