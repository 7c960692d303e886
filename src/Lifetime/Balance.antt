-- ===== src/Lifetime/Balance.antt =====
-- The references that an `Env` holds over its whole life. Code that protects values by the `Env`
-- keeps the count of references in step with the list, and the drop settles it.
use emacs_module_rs.Base.{
  ℕ, ◌+◌, ◌≡◌, refl, Option, none, some, List, [], ◌∷◌, ◌++◌, ◌==◌, if◌then◌else◌, arith, ◌∙◌, ap,
}
use emacs_module_rs.Machine.{
  Raw, Emacs, IsQuiet, ExitLaws, RefLaws, World, Outcome, ok, err, panicked, Error, Payload, Act,
  pure, fail, panic, continue, gets, attempt, ◌>>=◌,
}
use emacs_module_rs.Exit.{handle_exit, raw_call}
use native.Mathlib.Nat.{zero-add}
use emacs_module_rs.Exit.Laws.{pending, handle_exit_outcome}
use emacs_module_rs.Value.{
  Value, value, protect, protect_in, raw_call_value_unprotected, raw_call_value,
}
use emacs_module_rs.Lifetime.{new_env, drop_env, with_env}
use emacs_module_rs.Lifetime.Drop.{count, drop_env_frees}

count-append :
    (r g : Raw) (roots : List Raw)
    → count r (roots ++ g ∷ []) ≡ (if g == r then 1 else 0) + count r roots
unfolding count
count-append r g [] = refl
count-append r g (x ∷ roots) = omega (arith, count-append r g roots)

-- What the current `Env` has to free.
unfoldable pub owed : Raw → Option (List Raw) → ℕ
owed r none = 0
owed r (some roots) = count r roots

module _ {S : Type 0} ⦃E : Emacs S⦄ (refs : Raw → S → ℕ) where
  -- Every reference is held as often as it was outside, and once more for each time that the
  -- current `Env` protects it.
  pub record IsBalanced (base : Raw → ℕ) (w : World S) : Type 0 where
    pub held : (r : Raw) → refs r w.emacs ≡ owed r w.protected + base r

  -- The same while no exit is pending.
  pub record IsSettled (base : Raw → ℕ) (w : World S) : Type 0 where
    pub balanced : IsBalanced base w
    pub quiet : IsQuiet w.emacs

  -- From a settled world the action ends in one, whatever its result.
  pub record Settles {A : Type 0} (m : Act S A) : Type 0 where
    pub at : (base : Raw → ℕ) (w : World S) → IsSettled base w → IsSettled base (m w).1

  -- From a settled world the action ends in a balanced one: an exit may be pending.
  pub record Balances {A : Type 0} (m : Act S A) : Type 0 where
    pub at : (base : Raw → ℕ) (w : World S) → IsSettled base w → IsBalanced base (m w).1

  -- A raw function that makes and frees no reference.
  pub record KeepsRefs {A : Type 0} (f : S → A × S) : Type 0 where
    pub at : (s : S) (r : Raw) → refs r (f s).1 ≡ refs r s

module _ {S A : Type 0} ⦃E : Emacs S⦄ {refs : Raw → S → ℕ} where
  pub Settles-pure : (a : A) → Settles refs (pure {S = S} a)
  Settles-pure a = record { at = λ base w h. h }

  pub Settles-fail : (e : Error) → Settles refs (fail {S = S} {A = A} e)
  Settles-fail e = record { at = λ base w h. h }

  pub Settles-panic : (p : Payload) → Settles refs (panic {S = S} {A = A} p)
  Settles-panic p = record { at = λ base w h. h }

  pub Settles-gets : (f : World S → A) → Settles refs (gets f)
  Settles-gets f = record { at = λ base w h. h }

  pub Settles-attempt : (m : Act S A) → Settles refs m → Settles refs (attempt m)
  Settles-attempt m km = record { at = km.at }

module _ {S A B : Type 0} ⦃E : Emacs S⦄ {refs : Raw → S → ℕ} where
  Settles-continue :
      (base : Raw → ℕ) (o : Outcome A) (f : A → Act S B) (w : World S)
      → ((a : A) → Settles refs (f a))
      → IsSettled refs base w
      → IsSettled refs base (continue o f w).1
  Settles-continue base (ok a) f w kf h = (kf a).at base w h
  Settles-continue base (err e) f w kf h = h
  Settles-continue base (panicked p) f w kf h = h

  pub Settles-bind :
      (m : Act S A) (f : A → Act S B)
      → Settles refs m
      → ((a : A) → Settles refs (f a))
      → Settles refs (m >>= f)
  Settles-bind m f km kf = record {
    at = λ base w h. Settles-continue base (m w).0 f (m w).1 kf (km.at base w h);
  }

module _ {S : Type 0} ⦃E : Emacs S⦄ {refs : Raw → S → ℕ} (exits : ExitLaws S)
    (laws : RefLaws S refs) where
  -- A raw call settles, if its function keeps the references: `handle_exit` clears the exit.
  pub Settles-raw_call : {A : Type 0} (f : S → A × S) → KeepsRefs refs f → Settles refs (raw_call f)
  unfolding raw_call handle_exit
  Settles-raw_call f keeps = record {
    at = λ base w h. record {
      balanced = record {
        held = λ r. ground (
          arith,
          keeps.at w.emacs r,
          laws.refs-clear (f w.emacs).1 r,
          h.balanced.held r,
          exits.status_known (f w.emacs).1,
        );
      };
      quiet = (handle_exit_outcome exits (f w.emacs).0 (record w { emacs = (f w.emacs).1 })).1;
    };
  }

  protect_in-settles :
      (base : Raw → ℕ) (roots : Option (List Raw)) (v : Value) (w : World S)
      → w.protected ≡ roots
      → IsSettled refs base w
      → IsSettled refs base (protect_in roots v w).1
  unfolding owed
  protect_in-settles base none v w p h = h
  protect_in-settles base (some roots) v w p h =
      let s' = (E.make_global_ref v.raw w.emacs).1 in
      let root = (E.make_global_ref v.raw w.emacs).0 in
      record {
        balanced = record {
          held = λ r.
              let before : refs r w.emacs ≡ count r roots + base r =
                h.balanced.held r ∙ ap (λ o. owed r o + base r) p in
              omega (arith, laws.make-adds v.raw w.emacs r h.quiet, count-append r root roots);
        };
        quiet = laws.make-IsQuiet v.raw w.emacs h.quiet;
      }

  pub Settles-protect : (v : Value) → Settles refs (protect v)
  unfolding protect
  Settles-protect v = record { at = λ base w h. protect_in-settles base w.protected v w refl h }

  pub Settles-raw_call_value :
      (f : S → Raw × S) → KeepsRefs refs f → Settles refs (raw_call_value f)
  unfolding raw_call_value
  Settles-raw_call_value f keeps =
      Settles-bind (raw_call_value_unprotected f) protect
        (Settles-bind (raw_call f) (λ raw. pure (value raw)) (Settles-raw_call f keeps)
          (λ raw. Settles-pure (value raw)))
        Settles-protect

  -- A new `Env` owes nothing.
  new_env-IsSettled :
      (w : World S) → IsQuiet w.emacs → IsSettled refs (λ r. refs r w.emacs) (new_env w).1
  unfolding new_env owed count
  new_env-IsSettled w q = record { balanced = record { held = λ r. ground arith }; quiet = q }

  pub drop_settles :
      (base : Raw → ℕ) (roots : Option (List Raw)) (w : World S) (r : Raw)
      → w.protected ≡ roots
      → IsBalanced refs base w
      → (refs r (drop_env w).1.emacs ≡ base r) × (pending (drop_env w).1.emacs ≡ pending w.emacs)
  unfolding owed drop_env
  drop_settles base none w r p h =
      let before : refs r w.emacs ≡ base r =
        h.held r ∙ ap (λ o. owed r o + base r) p ∙ zero-add (base r) in
      simp p (before, refl)
  drop_settles base (some roots) w r p h =
      let before : refs r w.emacs ≡ count r roots + base r =
        h.held r ∙ ap (λ o. owed r o + base r) p in
      let (_, kept, freed) = drop_env_frees refs exits laws roots w r p (omega arith) in
      (omega arith, kept)

module _ {S : Type 0} ⦃E : Emacs S⦄ {refs : Raw → S → ℕ} (exits : ExitLaws S)
    (laws : RefLaws S refs) where
  -- If the body frees nothing but what it made, and protects the rest, then after the drop every
  -- reference is held exactly as often as before the `Env` was made, the exit that the body left is
  -- still pending, the result is the body's, and the outer `Env` has its list back.
  pub with_env_balance :
      {A : Type 0} (body : Act S A) (w : World S) (r : Raw)
      → IsQuiet w.emacs
      → Balances refs body
      → let inner = body (new_env w).1 in
        (refs r (with_env body w).1.emacs ≡ refs r w.emacs)
        × (pending (with_env body w).1.emacs ≡ pending inner.1.emacs)
        × ((with_env body w).0 ≡ inner.0)
        × ((with_env body w).1.protected ≡ w.protected)
  unfolding with_env new_env
  with_env_balance body w r q balances =
      let w' = (body (new_env w).1).1 in
      let h = balances.at (λ r. refs r w.emacs) (new_env w).1 (new_env-IsSettled exits laws w q) in
      let (a, b) = drop_settles exits laws (λ r. refs r w.emacs) w'.protected w' r refl h in
      (a, b, refl, refl)
