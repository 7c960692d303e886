-- ===== src/TestModule/Calls/Ending.antt =====
-- The loop of `mapc_vec` ends by itself.
use emacs_module_rs.Base.{
  ℕ, zero, suc, ◌≡◌, refl, ◌<◌, ◌+◌, Option, none, some, [], ◌∷◌, arith, pos,
}
use emacs_module_rs.Machine.{Emacs, World, ok, Act, pure, ◌>>◌, continue-same}
use emacs_module_rs.Value.{Value}
use emacs_module_rs.Call.{call_value, tuple_args}
use emacs_module_rs.Convert.Integer.{usize, int_into_lisp}
use emacs_module_rs.Vector.{IntoIter, size_hint, next}
use emacs_module_rs.Vector.Ending.{next-shrinks}
use emacs_module_rs.TestModule.Calls.{mapc_from}

module _ {S : Type 0} ⦃E : Emacs S⦄ (function : Value) where
  -- What the loop does with what `next` gives.
  abbrev calling_on : ℕ → ℕ → Option Value × IntoIter → Act S (Unit {0})
  calling_on fuel i taken = elim taken.0 [
    | none ↦ pure tt
    | some elem ↦ do
      call_value function (tuple_args (int_into_lisp usize (pos i) ∷ pure elem ∷ []))
      mapc_from fuel function (i + 1) taken.1
  ]

  calling_on-same :
      (n m i : ℕ) (it : IntoIter) (w : World S) (taken : Option Value × IntoIter)
      → ((later : IntoIter) (u : World S)
          → suc (size_hint later) ≡ size_hint it
          → mapc_from n function (i + 1) later u ≡ mapc_from m function (i + 1) later u)
      → (next it w).0 ≡ ok taken
      → calling_on n i taken (next it w).1 ≡ calling_on m i taken (next it w).1
  calling_on-same n m i it w (none, later) same e = refl
  calling_on-same n m i it w (some x, later) same e =
      let called =
        call_value function (tuple_args (int_into_lisp usize (pos i) ∷ pure x ∷ []))
          (next it w).1 in
      continue-same called.0 (λ _. mapc_from n function (i + 1) later)
        (λ _. mapc_from m function (i + 1) later) called.1
        (λ _ _. same later called.1 (next-shrinks it w x later e))

  -- Fuel above the number of elements that are left changes nothing.
  mapc_from-fuel :
      (n m i : ℕ) (it : IntoIter) (w : World S)
      → size_hint it < n
      → size_hint it < m
      → mapc_from n function i it w ≡ mapc_from m function i it w
  unfolding mapc_from
  mapc_from-fuel zero m i it w hn hm = absurd (omega (arith, hn))
  mapc_from-fuel (suc n) zero i it w hn hm = absurd (omega (arith, hm))
  mapc_from-fuel (suc n) (suc m) i it w hn hm =
      continue-same (next it w).0 (calling_on n i) (calling_on m i) (next it w).1 (λ taken.
        calling_on-same n m i it w taken (λ later u shorter.
          mapc_from-fuel n m (i + 1) later u (omega (arith, shorter, hn))
            (omega (arith, shorter, hm))))
