-- ===== src/Func/Defining/Rules.antt =====
-- How the operations that make objects keep what is known of them.
use mathlib.Core.Path.{subst}
use emacs_module_rs.Base.{ℕ, ◌≡◌, sym, ap, ◌∙◌, Option, none, some, List}
use emacs_module_rs.Machine.{Bytes, Raw, Emacs, IsQuiet, ExitLaws, RefLaws, World, ok, pure}
use emacs_module_rs.Exit.{raw_call}
use emacs_module_rs.Value.{
  Value, value, protect, protect_in, raw_call_value, raw_call_value_unprotected, cstring,
  cstring_or, find_nul, intern,
}
use emacs_module_rs.Func.Defining.{Body, Later, SymbolLaws, Yields, Yields-bind, raw_call_ok}

-- What stays true while objects are made.
pub record Stable {S : Type 0} (names : Raw → S → Option Bytes) (bodies : Raw → S → Option Body)
    (cells : Bytes → S → Option Body) (P : S → Type 0) : Type 0 where
  pub at : (s s' : S) → P s → Later names bodies cells s s' → P s'

module _ {S : Type 0} (names : Raw → S → Option Bytes) (bodies : Raw → S → Option Body)
    (cells : Bytes → S → Option Body) where
  -- The function cells, by name.
  abbrev pub Cells : (Bytes → Option Body) → S → Type 0
  Cells old s = (n : Bytes) → cells n s ≡ old n

  pub Stable-Cells : (old : Bytes → Option Body) → Stable names bodies cells (Cells old)
  Stable-Cells old = record { at = λ s s' h later n. later.same n ∙ h n }

  pub Stable-body : (r : Raw) (b : Body) → Stable names bodies cells (λ s. bodies r s ≡ some b)
  Stable-body r b = record { at = λ s s' h later. later.bodied r b h }

  pub Stable-name : (r : Raw) (n : Bytes) → Stable names bodies cells (λ s. names r s ≡ some n)
  Stable-name r n = record { at = λ s s' h later. later.named r n h }

  pub Stable-and :
      (P Q : S → Type 0)
      → Stable names bodies cells P
      → Stable names bodies cells Q
      → Stable names bodies cells (λ s. P s × Q s)
  Stable-and P Q kp kq = record {
    at = λ s s' (p, q) later. (kp.at s s' p later, kq.at s s' q later);
  }

module _ {S : Type 0} ⦃E : Emacs S⦄ {refs : Raw → S → ℕ} {names : Raw → S → Option Bytes}
    {bodies : Raw → S → Option Body} {cells : Bytes → S → Option Body} (exits : ExitLaws S)
    (ref_laws : RefLaws S refs) (laws : SymbolLaws names bodies cells) where
  protect_in-stable :
      (P : S → Type 0) (cell : Option (List Raw)) (v v' : Value) (w : World S)
      → Stable names bodies cells P
      → IsQuiet w.emacs
      → P w.emacs
      → (protect_in cell v w).0 ≡ ok v'
      → IsQuiet (protect_in cell v w).1.emacs × P (protect_in cell v w).1.emacs × (v ≡ v')
  protect_in-stable P none v v' w k q h e = (q, h, cc e)
  protect_in-stable P (some roots) v v' w k q h e = (
    ref_laws.make-IsQuiet v.raw w.emacs q,
    k.at w.emacs _ h (laws.ref-Later v.raw w.emacs q),
    cc e,
  )

  pub Yields-raw_call :
      (P : S → Type 0) (Q : Raw → S → Type 0) (f : S → Raw × S)
      → ((s : S) → IsQuiet s → P s → IsQuiet (f s).1 → Q (f s).0 (f s).1)
      → Yields P (raw_call f) Q
  Yields-raw_call P Q f gives = record {
    at = λ w raw q h e.
        let (calm, is, same) = raw_call_ok exits f w raw e in
        subst (λ (w' : World S). IsQuiet w'.emacs × Q raw w'.emacs) (sym same)
          (calm, subst (λ (r : Raw). Q r (f w.emacs).1) is (gives w.emacs q h calm));
  }

  pub Yields-value :
      (Q : Raw → S → Type 0) (raw : Raw) → Yields (Q raw) (pure (value raw)) (λ v. Q v.raw)
  Yields-value Q raw = record {
    at = λ w v q h e.
        let same : value raw ≡ v = cc e in (q, subst (λ (u : Value). Q u.raw w.emacs) same h);
  }

  pub Yields-protect :
      (Q : Raw → S → Type 0) (v : Value)
      → ((r : Raw) → Stable names bodies cells (Q r))
      → Yields (Q v.raw) (protect v) (λ v'. Q v'.raw)
  unfolding protect
  Yields-protect Q v stable = record {
    at = λ w v' q h e.
        let (q', h', same) = protect_in-stable (Q v.raw) w.protected v v' w (stable v.raw) q h e in
        (q', subst (λ (u : Value). Q u.raw (protect_in w.protected v w).1.emacs) same h');
  }

  -- The call of a raw function whose value is protected.
  pub Yields-raw_call_value :
      (P : S → Type 0) (Q : Raw → S → Type 0) (f : S → Raw × S)
      → ((s : S) → IsQuiet s → P s → IsQuiet (f s).1 → Q (f s).0 (f s).1)
      → ((r : Raw) → Stable names bodies cells (Q r))
      → Yields P (raw_call_value f) (λ v. Q v.raw)
  unfolding raw_call_value raw_call_value_unprotected
  Yields-raw_call_value P Q f gives stable =
      Yields-bind {Q = λ v. Q v.raw} (raw_call_value_unprotected f) protect
        (Yields-bind {Q = Q} (raw_call f) (λ raw. pure (value raw)) (Yields-raw_call P Q f gives)
          (Yields-value Q))
        (λ v. Yields-protect Q v stable)

  Yields-cstring_or :
      (P : S → Type 0) (s : Bytes) (nul : Option ℕ)
      → Yields P (cstring_or s nul) (λ t s'. (s ≡ t) × P s')
  unfolding cstring_or
  Yields-cstring_or P s none = record { at = λ w t q h e. (q, (cc e, h)) }
  Yields-cstring_or P s (some at) = record { at = λ w t q h e. cc e }

  pub Yields-cstring : (P : S → Type 0) (s : Bytes) → Yields P (cstring s) (λ t s'. (s ≡ t) × P s')
  unfolding cstring
  Yields-cstring P s = Yields-cstring_or P s (find_nul 0 s)

  pub Yields-intern :
      (P : S → Type 0) (n : Bytes)
      → Stable names bodies cells P
      → Yields P (intern n) (λ v s. P s × (names v.raw s ≡ some n))
  unfolding intern
  Yields-intern P n k = Yields-bind (cstring n) _ (Yields-cstring P n) (λ text.
      Yields-raw_call_value (λ s. (n ≡ text) × P s) (λ r s. P s × (names r s ≡ some n))
        (E.intern text)
        (λ s q (same, h) calm. (
          k.at s _ h (laws.intern-Later text s q),
          laws.intern-named text s q calm ∙ ap some (sym same),
        ))
        (λ r. Stable-and names bodies cells P _ k (Stable-name names bodies cells r n)))
