-- ===== src/Lifetime/Rooted.antt =====
-- The values that the current `Env` protects: a reference to each is in its list, and stays there.
pub mod Calls
use mathlib.Core.Path.{subst}
use mathlib.Core.List.{append-nil, append_assoc}
use emacs_module_rs.Base.{
  ℕ, ◌+◌, ◌≤◌, ◌≡◌, refl, sym, ap, ◌∙◌, Option, none, some, List, [], ◌∷◌, ◌++◌, ◌==◌, ==_iff, true,
  if◌then◌else◌, arith, String,
}
use emacs_module_rs.Machine.{
  Bytes, Raw, Emacs, ExitLaws, Static, World, Outcome, ok, err, panicked, Act, pure, fail, panic,
  gets, ◌>>=◌, continue, continue-ok, Error, Payload,
}
use emacs_module_rs.Exit.{handle_exit, raw_call}
use emacs_module_rs.Value.{
  Value, value, protect, protect_in, raw_call_value, raw_call_value_unprotected,
}
use emacs_module_rs.Lifetime.Drop.{count}
use emacs_module_rs.Lifetime.Balance.{owed, IsBalanced}

pub ok-injective : {A : Type 0} {a b : A} → ok a ≡ ok b → a ≡ b
ok-injective e = cc e

-- The action only adds to the list.
pub record Extends {S A : Type 0} (m : Act S A) : Type 0 where
  pub at :
      (w : World S) (roots : List Raw)
      → w.protected ≡ some roots
      → (extra : List Raw) × ((m w).1.protected ≡ some (roots ++ extra))

-- A reference that Emacs made for the value is in the list.
pub record IsRooted {S : Type 0} ⦃E : Emacs S⦄ (v : Value) (w : World S) : Type 0 where
  pub roots : List Raw
  pub root : Raw
  pub made_in : S
  pub listed : w.protected ≡ some roots
  pub is_in : 1 ≤ count root roots
  pub made : (E.make_global_ref v.raw made_in).0 ≡ root

-- A reference that Emacs made for the value is held: the collector leaves the value alone.
pub record IsProtected {S : Type 0} ⦃E : Emacs S⦄ (refs : Raw → S → ℕ) (v : Value) (w : World S)
    : Type 0 where
  pub root : Raw
  pub made_in : S
  pub made : (E.make_global_ref v.raw made_in).0 ≡ root
  pub held : 1 ≤ refs root w.emacs

-- The action only adds to the list, and protects the value that it gives.
pub record Protects {S : Type 0} ⦃E : Emacs S⦄ (m : Act S Value) : Type 0 where
  pub extends : Extends m
  pub rooted :
      (w : World S) (roots : List Raw) (v : Value)
      → w.protected ≡ some roots
      → (m w).0 ≡ ok v
      → IsRooted v (m w).1

module _ {S A : Type 0} where
  pub Extends-pure : (a : A) → Extends {S = S} (pure a)
  Extends-pure a = record { at = λ w roots p. ([], p ∙ ap some (sym (append-nil roots))) }

  pub Extends-fail : (e : Error) → Extends {S = S} (fail {A = A} e)
  Extends-fail e = record { at = λ w roots p. ([], p ∙ ap some (sym (append-nil roots))) }

  pub Extends-panic : (e : Payload) → Extends {S = S} (panic {A = A} e)
  Extends-panic e = record { at = λ w roots p. ([], p ∙ ap some (sym (append-nil roots))) }

  pub Extends-gets : (f : World S → A) → Extends (gets f)
  Extends-gets f = record { at = λ w roots p. ([], p ∙ ap some (sym (append-nil roots))) }

module _ {S A B : Type 0} where
  Extends-continue :
      (o : Outcome A) (f : A → Act S B) (w : World S) (roots : List Raw)
      → ((a : A) → Extends (f a))
      → w.protected ≡ some roots
      → (extra : List Raw) × ((continue o f w).1.protected ≡ some (roots ++ extra))
  Extends-continue (ok a) f w roots kf p = (kf a).at w roots p
  Extends-continue (err e) f w roots kf p = ([], p ∙ ap some (sym (append-nil roots)))
  Extends-continue (panicked e) f w roots kf p = ([], p ∙ ap some (sym (append-nil roots)))

  pub Extends-bind :
      (m : Act S A) (f : A → Act S B) → Extends m → ((a : A) → Extends (f a)) → Extends (m >>= f)
  Extends-bind m f km kf = record {
    at = λ w roots p.
        let (xs, p1) = km.at w roots p in
        let (ys, p2) = Extends-continue (m w).0 f (m w).1 (roots ++ xs) kf p1 in
        (xs ++ ys, p2 ∙ ap some (append_assoc roots xs ys));
  }

module _ {S : Type 0} ⦃E : Emacs S⦄ where
  protect_in-Extends :
      (v : Value) (w : World S) (cell : Option (List Raw)) (roots : List Raw)
      → w.protected ≡ cell
      → cell ≡ some roots
      → (extra : List Raw) × ((protect_in cell v w).1.protected ≡ some (roots ++ extra))
  protect_in-Extends v w none roots p e = cc e
  protect_in-Extends v w (some xs) roots p e =
      let root = (E.make_global_ref v.raw w.emacs).0 in
      let same : xs ≡ roots = cc in (root ∷ [], ap (λ ys. some (ys ++ root ∷ [])) same)

  pub Extends-protect : (v : Value) → Extends {S = S} (protect v)
  unfolding protect
  Extends-protect v = record { at = λ w roots p. protect_in-Extends v w w.protected roots refl p }

  -- The list, however the check for an exit ends.
  handle_exit-protected :
      {A : Type 0} (a : A) (w : World S) → (handle_exit a w).1.protected ≡ w.protected
  unfolding handle_exit
  handle_exit-protected a w = ground arith

  pub Extends-raw_call : {A : Type 0} (f : S → A × S) → Extends (raw_call f)
  unfolding raw_call
  Extends-raw_call f = record {
    at = λ w roots p. (
      [],
      handle_exit-protected (f w.emacs).0 (record w { emacs = (f w.emacs).1 })
          ∙ p
          ∙ ap some (sym (append-nil roots)),
    );
  }

pub ruleset extend_rules = (
  Extends-pure, Extends-fail, Extends-panic, Extends-gets, Extends-bind, Extends-protect,
  Extends-raw_call,
)

count-own : (root : Raw) (roots : List Raw) → 1 ≤ count root (roots ++ root ∷ [])
unfolding count
count-own root [] = ground (arith, (==_iff root root).1 refl)
count-own root (x ∷ roots) = omega (arith, count-own root roots)

count-append : (r : Raw) (xs ys : List Raw) → count r (xs ++ ys) ≡ count r xs + count r ys
unfolding count
count-append r [] ys = omega arith
count-append r (x ∷ xs) ys = omega (arith, count-append r xs ys)

module _ {S : Type 0} ⦃E : Emacs S⦄ where
  -- A value that is protected stays so.
  pub IsRooted-later :
      {A : Type 0} (m : Act S A) (v : Value) (w : World S)
      → Extends m
      → IsRooted v w
      → IsRooted v (m w).1
  IsRooted-later m v w k h =
      let (extra, p) = k.at w h.roots h.listed in
      record {
        roots = h.roots ++ extra;
        root = h.root;
        made_in = h.made_in;
        listed = p;
        is_in = omega (arith, count-append h.root h.roots extra, h.is_in);
        made = h.made;
      }

  -- While the references are balanced, one is held for each entry of the list.
  pub IsRooted-IsProtected :
      (refs : Raw → S → ℕ) (base : Raw → ℕ) (v : Value) (w : World S)
      → IsBalanced refs base w
      → IsRooted v w
      → IsProtected refs v w
  unfolding owed
  IsRooted-IsProtected refs base v w balanced h =
      let held : refs h.root w.emacs ≡ count h.root h.roots + base h.root =
        balanced.held h.root ∙ ap (λ o. owed h.root o + base h.root) h.listed in
      record {
        root = h.root;
        made_in = h.made_in;
        made = h.made;
        held = omega (arith, held, h.is_in);
      }

  protect_in-IsRooted :
      (v : Value) (w : World S) (cell : Option (List Raw)) (roots : List Raw)
      → cell ≡ some roots
      → IsRooted v (protect_in cell v w).1
  protect_in-IsRooted v w none roots e = cc e
  protect_in-IsRooted v w (some xs) roots e =
      let root = (E.make_global_ref v.raw w.emacs).0 in
      record {
        roots = xs ++ root ∷ [];
        root = root;
        made_in = w.emacs;
        listed = refl;
        is_in = count-own root xs;
        made = refl;
      }

  protect_in-ok :
      (v : Value) (w : World S) (cell : Option (List Raw)) → (protect_in cell v w).0 ≡ ok v
  protect_in-ok v w none = refl
  protect_in-ok v w (some xs) = refl

  pub Protects-protect : (v : Value) → Protects {S = S} (protect v)
  unfolding protect
  Protects-protect v = record {
    extends = Extends-protect v;
    rooted = λ w roots v' p e.
        let same : v ≡ v' = ok-injective (sym (protect_in-ok v w w.protected) ∙ e) in
        subst (λ (u : Value). IsRooted u (protect_in w.protected v w).1) same
          (protect_in-IsRooted v w w.protected roots p);
  }
