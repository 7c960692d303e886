-- ===== src/TestModule/Lifetimes/Protected.antt =====
-- The values that the tests of the lifetimes make are protected while the collector runs, and after.
use mathlib.Core.Path.{subst}
use emacs_module_rs.Base.{ℕ, zero, suc, ◌≡◌, some, List, [], ◌∷◌, ◌++◌}
use emacs_module_rs.Machine.{
  codes, Raw, Emacs, ExitLaws, RefLaws, World, ok, Act, pure, ◌>>=◌, ◌>>◌, continue-ok,
}
use emacs_module_rs.Value.{Value}
use emacs_module_rs.Call.{values_args}
use emacs_module_rs.Lifetime.Balance.{IsSettled, Settles, Settles-pure, Settles-panic, Settles-bind}
use emacs_module_rs.Lifetime.Settling.{KeepingCalls}
use emacs_module_rs.Lifetime.Settling.Calls.{Settles-call_named}
use emacs_module_rs.Lifetime.Rooted.{
  Extends, IsRooted, IsProtected, Protects, Extends-pure, Extends-panic, Extends-bind,
  IsRooted-later, IsRooted-IsProtected, ok-injective,
}
use emacs_module_rs.Lifetime.Rooted.Calls.{Protects-call_name}
use emacs_module_rs.TestModule.Lifetimes.{gc, create, use_back, first_or_panic, create_collect_use}

module _ {S : Type 0} ⦃E : Emacs S⦄ where
  abbrev AllRooted : List Value → World S → Type 0
  AllRooted [] w = Unit
  AllRooted (v ∷ vs) w = IsRooted v w × AllRooted vs w

  abbrev pub AllProtected : (Raw → S → ℕ) → List Value → World S → Type 0
  AllProtected refs [] w = Unit
  AllProtected refs (v ∷ vs) w = IsProtected refs v w × AllProtected refs vs w

  AllRooted-later :
      {A : Type 0} (m : Act S A) (w : World S)
      → Extends m
      → (vs : List Value) → AllRooted vs w
      → AllRooted vs (m w).1
  AllRooted-later m w k [] h = tt
  AllRooted-later m w k (v ∷ vs) (h, hs) = (IsRooted-later m v w k h, AllRooted-later m w k vs hs)

  AllRooted-AllProtected :
      (refs : Raw → S → ℕ) (base : Raw → ℕ) (w : World S)
      → IsSettled refs base w
      → (vs : List Value) → AllRooted vs w
      → AllProtected refs vs w
  AllRooted-AllProtected refs base w s [] h = tt
  AllRooted-AllProtected refs base w s (v ∷ vs) (h, hs) =
      (IsRooted-IsProtected refs base v w s.balanced h, AllRooted-AllProtected refs base w s vs hs)

  Extends-create :
      (count : ℕ) (creating : Act S Value) → Extends creating → Extends (create count creating)
  unfolding create
  Extends-create zero creating k = Extends-pure []
  Extends-create (suc count) creating k = Extends-bind creating _ k (λ x.
      Extends-bind (create count creating) (λ vs. pure (x ∷ vs)) (Extends-create count creating k)
        (λ vs. Extends-pure (x ∷ vs)))

  create-AllRooted :
      (count : ℕ) (creating : Act S Value) (w : World S) (roots : List Raw) (vs : List Value)
      → Protects creating
      → w.protected ≡ some roots
      → (create count creating w).0 ≡ ok vs
      → AllRooted vs (create count creating w).1
  unfolding create
  create-AllRooted zero creating w roots vs k p e =
      subst (λ (xs : List Value). AllRooted xs w) (ok-injective e) tt
  create-AllRooted (suc count) creating w roots vs k p e =
      let rest : Value → Act S (List Value) = λ x. create count creating >>= λ xs. pure (x ∷ xs) in
      let (x, began, more) = continue-ok (creating w).0 rest (creating w).1 vs e in
      let w1 = (creating w).1 in
      let (xs, made, last) =
        continue-ok (create count creating w1).0 (λ xs. pure (x ∷ xs)) (create count creating w1).1
          vs more in
      let (extra, p1) = k.extends.at w roots p in
      let first =
        IsRooted-later (create count creating) x w1 (Extends-create count creating k.extends)
          (k.rooted w roots x p began) in
      let others = create-AllRooted count creating w1 (roots ++ extra) xs k p1 made in
      let w2 = (create count creating w1).1 in
      let all : AllRooted (x ∷ xs) w2 = (first, others) in
      rw (began, made) (subst (λ (ys : List Value). AllRooted ys w2) (ok-injective last) all)

  Extends-gc : Extends {S = S} gc
  unfolding gc
  Extends-gc =
      (Protects-call_name (codes "garbage-collect") (values_args []) (Extends-pure [])).extends

  Extends-use_back :
      (using : Value → Act S Value)
      → ((v : Value) → Extends (using v))
      → (vs : List Value) → Extends (use_back using vs)
  unfolding use_back
  Extends-use_back using k [] = Extends-pure tt
  Extends-use_back using k (x ∷ rest) =
      Extends-bind (use_back using rest) _ (Extends-use_back using k rest)
        (λ u. Extends-bind (using x) (λ v. pure tt) (k x) (λ v. Extends-pure tt))

  Extends-first_or_panic : (vs : List Value) → Extends {S = S} (first_or_panic vs)
  Extends-first_or_panic [] = Extends-panic _
  Extends-first_or_panic (x ∷ _) = Extends-pure x

module _ {S : Type 0} ⦃E : Emacs S⦄ {refs : Raw → S → ℕ} (exits : ExitLaws S)
    (laws : RefLaws S refs) (calls : KeepingCalls refs) where
  Settles-create :
      (count : ℕ) (creating : Act S Value)
      → Settles refs creating
      → Settles refs (create count creating)
  unfolding create
  Settles-create zero creating k = Settles-pure []
  Settles-create (suc count) creating k = Settles-bind creating _ k (λ x.
      Settles-bind (create count creating) (λ vs. pure (x ∷ vs)) (Settles-create count creating k)
        (λ vs. Settles-pure (x ∷ vs)))

  Settles-gc : Settles refs gc
  unfolding gc
  Settles-gc =
      Settles-call_named exits laws calls (codes "garbage-collect") (values_args [])
        (Settles-pure [])

  Settles-use_back :
      (using : Value → Act S Value)
      → ((v : Value) → Settles refs (using v))
      → (vs : List Value) → Settles refs (use_back using vs)
  unfolding use_back
  Settles-use_back using k [] = Settles-pure tt
  Settles-use_back using k (x ∷ rest) =
      Settles-bind (use_back using rest) _ (Settles-use_back using k rest)
        (λ u. Settles-bind (using x) (λ v. pure tt) (k x) (λ v. Settles-pure tt))

  Settles-first_or_panic : (vs : List Value) → Settles refs (first_or_panic vs)
  Settles-first_or_panic [] = Settles-panic _
  Settles-first_or_panic (x ∷ _) = Settles-pure x

  -- If creating a value protects it, and creating and using one free nothing but what they made,
  -- then every value that create_collect_use has created is protected when it calls the
  -- collector, when the collector has run, and when it is over, however it ends, in an Env that
  -- protects values and accounts for the references. Emacs follows ExitLaws and RefLaws, and its
  -- calls KeepingCalls.
  pub create_collect_use-AllProtected :
      (count : ℕ) (creating : Act S Value) (using : Value → Act S Value) (base : Raw → ℕ)
      (w : World S) (roots : List Raw) (vs : List Value)
      → Settles refs creating
      → Protects creating
      → ((v : Value) → Settles refs (using v))
      → ((v : Value) → Extends (using v))
      → IsSettled refs base w
      → w.protected ≡ some roots
      → (create count creating w).0 ≡ ok vs
      → let made = (create count creating w).1 in
        AllProtected refs vs made
        × AllProtected refs vs (gc made).1
        × AllProtected refs vs (create_collect_use count creating using w).1
  unfolding create_collect_use
  create_collect_use-AllProtected count creating using base w roots vs settles protects us ue h p
        e =
      let made = (create count creating w).1 in
      let settled = (Settles-create count creating settles).at base w h in
      let rooted = create-AllRooted count creating w roots vs protects p e in
      let use_up : Act S Value = use_back using vs >> first_or_panic vs in
      let rest : Act S Value = gc >> use_up in
      let rest_settles =
        Settles-bind gc (λ _. use_up) Settles-gc
          (λ u.
            Settles-bind (use_back using vs) (λ _. first_or_panic vs) (Settles-use_back using us vs)
              (λ u'. Settles-first_or_panic vs)) in
      let rest_extends =
        Extends-bind gc (λ _. use_up) Extends-gc
          (λ u.
            Extends-bind (use_back using vs) (λ _. first_or_panic vs) (Extends-use_back using ue vs)
              (λ u'. Extends-first_or_panic vs)) in
      (
        AllRooted-AllProtected refs base made settled vs rooted,
        AllRooted-AllProtected refs base (gc made).1 (Settles-gc.at base made settled) vs
            (AllRooted-later gc made Extends-gc vs rooted),
        rw e (
            AllRooted-AllProtected refs base (rest made).1 (rest_settles.at base made settled) vs
              (AllRooted-later rest made rest_extends vs rooted)),
      )
