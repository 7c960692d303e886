-- ===== src/Convert/Text/Strip.antt =====
-- What stripping the zero bytes leaves of a text.
use emacs_module_rs.Base.{
  ℕ, zero, suc, ◌≡◌, ◌≢◌, refl, sym, ap, ◌∙◌, List, [], ◌∷◌, ◌++◌, some, false, length, take,
  replicate, get_elem?, arith, ◌==◌,
}
use mathlib.Core.List.{append_assoc, append-nil}
use native.Mathlib.Decide.{ℕ_discrete}
use emacs_module_rs.Machine.{Bytes}
use emacs_module_rs.Convert.Text.{is_zero_byte, strip_loop, strip_trailing_zero_bytes}

module _ {ℓ} {A : Type ℓ} where
  take_all : (xs : List A) → take (length xs) xs ≡ xs
  take_all [] = refl
  take_all (x ∷ xs) = ap (λ t. x ∷ t) (take_all xs)

  pub take-append : (xs ys : List A) → take (length xs) (xs ++ ys) ≡ xs
  take-append [] [] = refl
  take-append [] (y ∷ ys) = refl
  take-append (x ∷ xs) ys = ap (λ t. x ∷ t) (take-append xs ys)

  pub get_elem?-append : (xs : List A) (y : A) → get_elem? (xs ++ y ∷ []) (length xs) ≡ some y
  get_elem?-append [] y = refl
  get_elem?-append (x ∷ xs) y = get_elem?-append xs y

  -- A list that is not empty ends in an element.
  snoc_view :
      (n : ℕ) (xs : List A)
      → length xs ≡ suc n
      → (c : A) × (xs ≡ take n xs ++ c ∷ []) × (get_elem? xs n ≡ some c) × (length (take n xs) ≡ n)
  snoc_view n [] h = absurd (omega arith)
  snoc_view zero (x ∷ []) h = (x, refl, refl, refl)
  snoc_view zero (x ∷ y ∷ xs) h = absurd (omega arith)
  snoc_view (suc n) (x ∷ xs) h =
      let (c, e, g, l) = snoc_view n xs (omega arith) in (c, ap (λ t. x ∷ t) e, g, omega arith)

  replicate-snoc : (k : ℕ) (a : A) → replicate k a ++ a ∷ [] ≡ replicate (suc k) a
  replicate-snoc zero a = refl
  replicate-snoc (suc k) a = ap (λ t. a ∷ t) (replicate-snoc k a)

-- A text that is empty, or whose last byte is not zero.
pub data IsClean (s : Bytes) : Type 0 where
  empty : s ≡ [] → IsClean s
  ends : (front : Bytes) (c : ℕ) → c ≢ 0 → s ≡ front ++ c ∷ [] → IsClean s

-- What is stripped are zero bytes, and what is left is clean.
pub record IsStripped (s stripped : Bytes) : Type 0 where
  pub zeros : ℕ
  pub whole : s ≡ stripped ++ replicate zeros 0
  pub clean : IsClean stripped

strip_zero :
    (n : ℕ) (s : Bytes) (c : ℕ)
    → s ≡ take n s ++ c ∷ []
    → get_elem? s n ≡ some c
    → c ≡ 0
    → IsStripped (take n s) (strip_loop n (take n s))
    → IsStripped s (strip_loop (suc n) s)
unfolding strip_loop is_zero_byte
strip_zero n s c e g z h =
    rw (g, z)
      (record {
        zeros = suc h.zeros;
        whole =
            e
            ∙ ap (λ d. take n s ++ d ∷ []) z
            ∙ ap (λ t. t ++ 0 ∷ []) h.whole
            ∙ append_assoc (strip_loop n (take n s)) (replicate h.zeros 0) (0 ∷ [])
            ∙ ap (λ t. strip_loop n (take n s) ++ t) (replicate-snoc h.zeros 0);
        clean = h.clean;
      })

strip_other :
    (n : ℕ) (s : Bytes) (c : ℕ)
    → s ≡ take n s ++ c ∷ []
    → get_elem? s n ≡ some c
    → c ≢ 0
    → IsStripped s (strip_loop (suc n) s)
unfolding strip_loop is_zero_byte
strip_other n s c e g ne =
    let keep : (c == 0) ≡ false = ground arith in
    rw (g, keep) (record { zeros = 0; whole = sym (append-nil s); clean = ends (take n s) c ne e })

strip_loop-IsStripped : (n : ℕ) (s : Bytes) → length s ≡ n → IsStripped s (strip_loop n s)
unfolding strip_loop
strip_loop-IsStripped zero [] h = record { zeros = 0; whole = refl; clean = empty refl }
strip_loop-IsStripped zero (x ∷ s) h = absurd (omega arith)
strip_loop-IsStripped (suc n) s h =
    let (c, e, g, l) = snoc_view n s h in
    let rest = strip_loop-IsStripped n (take n s) l in
    elim (ℕ_discrete c 0) [ yes z ↦ strip_zero n s c e g z rest | no ne ↦ strip_other n s c e g ne ]

-- strip_trailing_zero_bytes takes off zero bytes at the end, and all of them.
pub strip_trailing_zero_bytes-IsStripped : (s : Bytes) → IsStripped s (strip_trailing_zero_bytes s)
unfolding strip_trailing_zero_bytes
strip_trailing_zero_bytes-IsStripped s = strip_loop-IsStripped (length s) s refl
