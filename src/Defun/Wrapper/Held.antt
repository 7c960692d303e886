-- ===== src/Defun/Wrapper/Held.antt =====
-- What the flags say while references are held, and which references may be held together.
use emacs_module_rs.Base.{
  ℕ, zero, suc, ◌≡◌, ◌≢◌, refl, sym, ap, Bool-cases, inl, inr, List, [], ◌∷◌, ◌++◌, ◌==◌,
  if◌then◌else◌, ==_iff,
}
use emacs_module_rs.Machine.{Address, Borrow, shared, exclusive}
use emacs_module_rs.Defun.Wrapper.{Passed, env_ref, by_value, borrowed, borrowed_mut}
use emacs_module_rs.Defun.Wrapper.Restores.{same}

abbrev pub IsRead : Borrow → Type 0
IsRead (shared zero) = ⊥
IsRead (shared (suc n)) = Unit
IsRead exclusive = ⊥

abbrev pub set_flag : Address → Borrow → (Address → Borrow) → Address → Borrow
set_flag cell b flags other = if cell == other then b else flags other

module _ {T : Type 0} where
  -- Two references that may be held together.
  abbrev pub Apart : Passed T → Passed T → Type 0
  Apart (borrowed c) (borrowed_mut d) = c ≢ d
  Apart (borrowed_mut c) (borrowed d) = c ≢ d
  Apart (borrowed_mut c) (borrowed_mut d) = c ≢ d
  Apart _ _ = Unit

  abbrev pub AllApart : List (Passed T) → Passed T → Type 0
  AllApart [] q = Unit
  AllApart (p ∷ ps) q = Apart p q × AllApart ps q

  abbrev pub ApartFromAll : Passed T → List (Passed T) → Type 0
  ApartFromAll p [] = Unit
  ApartFromAll p (q ∷ qs) = Apart p q × ApartFromAll p qs

  abbrev pub IsExclusive : List (Passed T) → Type 0
  IsExclusive [] = Unit
  IsExclusive (p ∷ ps) = ApartFromAll p ps × IsExclusive ps

  ApartFromAll-snoc :
      (p q : Passed T) (ps : List (Passed T))
      → ApartFromAll p ps
      → Apart p q
      → ApartFromAll p (ps ++ q ∷ [])
  ApartFromAll-snoc p q [] h a = (a, tt)
  ApartFromAll-snoc p q (r ∷ ps) (b, h) a = (b, ApartFromAll-snoc p q ps h a)

  pub IsExclusive-snoc :
      (ps : List (Passed T)) (q : Passed T)
      → IsExclusive ps
      → AllApart ps q
      → IsExclusive (ps ++ q ∷ [])
  IsExclusive-snoc [] q h a = (tt, tt)
  IsExclusive-snoc (p ∷ ps) q (first, h) (b, a) =
      (ApartFromAll-snoc p q ps first b, IsExclusive-snoc ps q h a)

  abbrev pub Flagged : (Address → Borrow) → Passed T → Type 0
  Flagged flags (borrowed c) = IsRead (flags c)
  Flagged flags (borrowed_mut c) = flags c ≡ exclusive
  Flagged flags _ = Unit

  -- The flags of what is held.
  abbrev pub Holds : (Address → Borrow) → List (Passed T) → Type 0
  Holds flags [] = Unit
  Holds flags (p ∷ ps) = Flagged flags p × Holds flags ps

  pub Holds-snoc :
      (flags : Address → Borrow) (ps : List (Passed T)) (q : Passed T)
      → Holds flags ps
      → Flagged flags q
      → Holds flags (ps ++ q ∷ [])
  Holds-snoc flags [] q h f = (f, tt)
  Holds-snoc flags (p ∷ ps) q (g, h) f = (g, Holds-snoc flags ps q h f)

  module _ (flags : Address → Borrow) (cell : Address) where
    -- One more reader: what is held stays so, and nothing holds the cell for writing.
    Flagged-read :
        (n : ℕ) (p : Passed T)
        → flags cell ≡ shared n
        → Flagged flags p
        → Flagged (set_flag cell (shared (suc n)) flags) p × Apart p (borrowed cell)
    Flagged-read n env_ref e f = (tt, tt)
    Flagged-read n (by_value x) e f = (tt, tt)
    Flagged-read n (borrowed c) e f = elim (Bool-cases (cell == c)) [
      | inl yes_cell ↦ (rw yes_cell tt, tt)
      | inr no_cell ↦ (rw no_cell f, tt)
    ]
    Flagged-read n (borrowed_mut c) e f = elim (Bool-cases (cell == c)) [
      | inl yes_cell ↦ absurd (let is = (==_iff cell c).0 yes_cell in cc)
      | inr no_cell ↦ (rw no_cell f, λ is. absurd (let is' = (==_iff cell c).1 (sym is) in cc))
    ]

    -- A writer: nothing else holds the cell.
    Flagged-write :
        (p : Passed T)
        → flags cell ≡ shared 0
        → Flagged flags p
        → Flagged (set_flag cell exclusive flags) p × Apart p (borrowed_mut cell)
    Flagged-write env_ref e f = (tt, tt)
    Flagged-write (by_value x) e f = (tt, tt)
    Flagged-write (borrowed c) e f = elim (Bool-cases (cell == c)) [
      | inl yes_cell ↦
          let is = (==_iff cell c).0 yes_cell in absurd (rw (sym (ap flags is), e) at f)
      | inr no_cell ↦ (rw no_cell f, λ is. absurd (let is' = (==_iff cell c).1 (sym is) in cc))
    ]
    Flagged-write (borrowed_mut c) e f = elim (Bool-cases (cell == c)) [
      | inl yes_cell ↦ absurd (let is = (==_iff cell c).0 yes_cell in cc)
      | inr no_cell ↦ (rw no_cell f, λ is. absurd (let is' = (==_iff cell c).1 (sym is) in cc))
    ]

    pub Holds-read :
        (n : ℕ) (ps : List (Passed T))
        → flags cell ≡ shared n
        → Holds flags ps
        → Holds (set_flag cell (shared (suc n)) flags) ps × AllApart ps (borrowed cell)
    Holds-read n [] e h = (tt, tt)
    Holds-read n (p ∷ ps) e (f, h) =
        let (f', a) = Flagged-read n p e f in
        let (h', new) = Holds-read n ps e h in ((f', h'), (a, new))

    pub Holds-write :
        (ps : List (Passed T))
        → flags cell ≡ shared 0
        → Holds flags ps
        → Holds (set_flag cell exclusive flags) ps × AllApart ps (borrowed_mut cell)
    Holds-write [] e h = (tt, tt)
    Holds-write (p ∷ ps) e (f, h) =
        let (f', a) = Flagged-write p e f in
        let (h', new) = Holds-write ps e h in ((f', h'), (a, new))

pub IsRead-set_flag :
    (flags : Address → Borrow) (cell : Address) (n : ℕ)
    → IsRead (set_flag cell (shared (suc n)) flags cell)
IsRead-set_flag flags cell n = rw (same cell) tt

pub set_flag-exclusive :
    (flags : Address → Borrow) (cell : Address) → set_flag cell exclusive flags cell ≡ exclusive
set_flag-exclusive flags cell = rw (same cell) refl
