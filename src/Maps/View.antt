-- ===== src/Maps/View.antt =====
-- A map as the function that it stands for: the order of the entries is forgotten.
use emacs_module_rs.Base.{
  ◌≡◌, refl, Bool, true, false, Option, none, some, [], ◌∷◌, if◌then◌else◌, Bool-cases, inl, inr,
  arith,
}
use emacs_module_rs.Machine.{Bytes}
use emacs_module_rs.Names.{equal_bytes}
use emacs_module_rs.Maps.{Map, map_get, map_insert, map_remove}

abbrev pub Spec : Type 0 → Type 0
Spec V = Bytes → Option V

module _ {V : Type 0} where
  abbrev pub view : Map V → Spec V
  view m key = map_get key m

  abbrev pub updated : Bytes → V → Spec V → Spec V
  updated key value f other = if equal_bytes key other then some value else f other

  abbrev pub without : Bytes → Spec V → Spec V
  without key f other = if equal_bytes key other then none else f other

equal_bytes_sound : (a b : Bytes) → equal_bytes a b ≡ true → a ≡ b
equal_bytes_sound [] [] e = refl
equal_bytes_sound [] (y ∷ ys) e = ground (arith, e)
equal_bytes_sound (x ∷ xs) [] e = ground (arith, e)
equal_bytes_sound (x ∷ xs) (y ∷ ys) e = ground (arith, equal_bytes_sound xs ys, e)

equal_bytes_comm : (a b : Bytes) → equal_bytes a b ≡ equal_bytes b a
equal_bytes_comm [] [] = refl
equal_bytes_comm [] (y ∷ ys) = refl
equal_bytes_comm (x ∷ xs) [] = refl
equal_bytes_comm (x ∷ xs) (y ∷ ys) = ground (arith, equal_bytes_comm xs ys)

module _ {A : Type 0} where
  if_twice : (b : Bool) (x y z : A) → (if b then x else z) ≡ (if b then x else if b then y else z)
  if_twice true x y z = refl
  if_twice false x y z = refl

  if_same : (b : Bool) (x : A) → x ≡ (if b then x else x)
  if_same true x = refl
  if_same false x = refl

  if_swap :
      (b c : Bool) (x y z : A)
      → (b ≡ true → c ≡ true → x ≡ y)
      → (if b then x else if c then y else z) ≡ (if c then y else if b then x else z)
  if_swap true true x y z same = same refl refl
  if_swap true false x y z same = refl
  if_swap false true x y z same = refl
  if_swap false false x y z same = refl

-- One key is not two.
equal_bytes_apart :
    (k key other : Bytes)
    → equal_bytes k key ≡ false
    → equal_bytes k other ≡ true
    → ¬ (equal_bytes key other ≡ true)
equal_bytes_apart k key other e ek eo =
    let same : equal_bytes k key ≡ true = rw (equal_bytes_sound key other eo) ek in cc

module _ {V : Type 0} where
  pub map_get-map_insert :
      (key : Bytes) (value : V) (other : Bytes) (m : Map V)
      → map_get other (map_insert key value m)
        ≡ (if equal_bytes key other then some value else map_get other m)
  unfolding map_get map_insert
  map_get-map_insert key value other [] = refl
  map_get-map_insert key value other ((k, v) ∷ rest) = elim (Bool-cases (equal_bytes k key)) [
    | inl e ↦ rw (e, equal_bytes_sound k key e) (if_twice (equal_bytes key other) _ _ _)
    | inr e ↦
        rw (e, map_get-map_insert key value other rest)
          (if_swap (equal_bytes k other) (equal_bytes key other) (some v) (some value)
            (map_get other rest) (λ ek eo. absurd (equal_bytes_apart k key other e ek eo)))
  ]

  pub map_get-map_remove :
      (key other : Bytes) (m : Map V)
      → map_get other (map_remove key m) ≡ (if equal_bytes key other then none else map_get other m)
  unfolding map_get map_remove
  map_get-map_remove key other [] = if_same (equal_bytes key other) none
  map_get-map_remove key other ((k, v) ∷ rest) = elim (Bool-cases (equal_bytes k key)) [
    | inl e ↦
        rw (e, equal_bytes_sound k key e, map_get-map_remove key other rest)
          (if_twice (equal_bytes key other) none (some v) (map_get other rest))
    | inr e ↦
        rw (e, map_get-map_remove key other rest)
          (if_swap (equal_bytes k other) (equal_bytes key other) (some v) none (map_get other rest)
            (λ ek eo. absurd (equal_bytes_apart k key other e ek eo)))
  ]
