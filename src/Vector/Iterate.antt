-- ===== src/Vector/Iterate.antt =====
-- Iterating over a Lisp vector.
use emacs_module_rs.Base.{
  ℕ, zero, suc, ◌+◌, ◌-◌, ◌<◌, ◌≤◌, ◌^◌, pos, ◌≡◌, refl, Option, none, some, List, inl, inr, ◌⊎◌,
  [], ◌∷◌, map, leb, true, false, length, get_elem?, arith,
}
use emacs_module_rs.Machine.{Raw, Emacs, IsQuiet, World, ok, pure, ◌>>=◌}
use emacs_module_rs.Exit.Laws.{raw_call-quiet}
use emacs_module_rs.Value.{value, raw_call_value_unprotected}
use emacs_module_rs.Convert.Integer.{isize}
use emacs_module_rs.Convert.Integer.Bounds.{as_type-eq_of_InRange}
use emacs_module_rs.Vector.{
  IntoIter, into_iter, from_value_unchecked, vector_from_lisp, vec_get, next, collect,
}

-- The manual on `vec_size` and `vec_get`: the size of a vector, and the element at an index below
-- it, are read without a change. `elements r s` is what the vector `r` holds.
pub record VectorLaws (S : Type 0) ⦃E : Emacs S⦄ (elements : Raw → S → Option (List Raw))
    : Type 0 where
  pub size-elements :
      (r : Raw) (xs : List Raw) (s : S)
      → IsQuiet s
      → elements r s ≡ some xs
      → E.vec_size r s ≡ (pos (length xs), s)
  pub get-elements :
      (r : Raw) (xs : List Raw) (s : S) (i : ℕ) (x : Raw)
      → IsQuiet s
      → elements r s ≡ some xs
      → get_elem? xs i ≡ some x
      → E.vec_get r (pos i) s ≡ (x, s)

abbrev drop : ℕ → List Raw → List Raw
drop zero xs = xs
drop (suc n) [] = []
drop (suc n) (x ∷ xs) = drop n xs

drop_view :
    (i : ℕ) (xs : List Raw)
    → i < length xs
    → (x : Raw) × (get_elem? xs i ≡ some x) × (drop i xs ≡ x ∷ drop (i + 1) xs)
drop_view zero [] h = absurd (omega arith)
drop_view zero (x ∷ xs) h = (x, refl, refl)
drop_view (suc i) [] h = absurd (omega arith)
drop_view (suc i) (x ∷ xs) h =
    let next : suc i + 1 ≡ suc (i + 1) = omega arith in rw next (drop_view i xs (omega arith))

drop_end : (i : ℕ) (xs : List Raw) → length xs ≤ i → drop i xs ≡ []
drop_end zero [] h = refl
drop_end zero (x ∷ xs) h = absurd (omega arith)
drop_end (suc i) [] h = refl
drop_end (suc i) (x ∷ xs) h = drop_end i xs (omega arith)

lt_or_le : (a b : ℕ) → (a < b) ⊎ (b ≤ a)
lt_or_le a b = ground arith

leb-false : (a b : ℕ) → b < a → leb a b ≡ false
leb-false a b h = ground arith

leb-true : (a b : ℕ) → a ≤ b → leb a b ≡ true
leb-true a b h = ground arith

module _ {S : Type 0} ⦃E : Emacs S⦄ (elements : Raw → S → Option (List Raw))
    (laws : VectorLaws S elements) (r : Raw) (xs : List Raw) (w : World S) (q : IsQuiet w.emacs)
    (holds : elements r w.emacs ≡ some xs) (fits : length xs ≤ 2 ^ 63 - 1) where
  abbrev at : ℕ → IntoIter
  at i = record { vector = from_value_unchecked (value r) (length xs); i = i }

  vec_get-elements :
      (i : ℕ) (x : Raw)
      → i < length xs
      → get_elem? xs i ≡ some x
      → vec_get pure (at i).vector i w ≡ (ok (value x), w)
  unfolding vec_get raw_call_value_unprotected
  vec_get-elements i x h g =
      let read = laws.get-elements r xs w.emacs i x q holds g in
      let calm : IsQuiet (E.vec_get r (pos i) w.emacs).1 = rw read q in
      rw
        (
          as_type-eq_of_InRange isize (pos i) (omega arith),
          raw_call-quiet (E.vec_get r (pos i)) w calm,
          read,
        )
        refl

  next-some :
      (i : ℕ) (x : Raw)
      → i < length xs
      → get_elem? xs i ≡ some x
      → next (at i) w ≡ (ok (some (value x), at (i + 1)), w)
  unfolding next
  next-some i x h g = rw (leb-false (length xs) i h, vec_get-elements i x h g) refl

  next-none : (i : ℕ) → length xs ≤ i → next (at i) w ≡ (ok (none, at i), w)
  unfolding next
  next-none i h = rw (leb-true (length xs) i h) refl

  collect-drop :
      (fuel i : ℕ)
      → length xs - i < fuel
      → collect fuel (at i) w ≡ (ok (map (λ x. value x) (drop i xs)), w)
  unfolding collect
  collect-drop zero i h = absurd (omega arith)
  collect-drop (suc fuel) i h = elim (lt_or_le i (length xs)) [
    | inl more ↦
        let (x, g, d) = drop_view i xs more in
        rw (next-some i x more g, collect-drop fuel (i + 1) (omega arith), d) refl
    | inr done ↦ rw (next-none i done, drop_end i xs done) refl
  ]

  vector_from_lisp-elements : vector_from_lisp (value r) w ≡ (ok (at 0).vector, w)
  unfolding vector_from_lisp
  vector_from_lisp-elements =
      let read = laws.size-elements r xs w.emacs q holds in
      let calm : IsQuiet (E.vec_size r w.emacs).1 = rw read q in
      rw (raw_call-quiet (E.vec_size r) w calm, read) refl

  -- A vector that is read from Lisp and iterated over gives each of its elements once and in
  -- order and changes nothing, if reading it follows VectorLaws and an isize holds its length;
  -- any fuel above the length is enough.
  pub collect-elements :
      (fuel : ℕ)
      → length xs < fuel
      → (vector_from_lisp (value r) >>= (λ v. collect fuel (into_iter v))) w
        ≡ (ok (map (λ x. value x) xs), w)
  collect-elements fuel h = rw vector_from_lisp-elements (collect-drop fuel 0 (omega arith))
