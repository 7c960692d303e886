-- ===== src/Reloading/Table.antt =====
-- What `load` does to the table of the loaded libraries, however it ends.
use emacs_module_rs.Base.{
  ◌≡◌, refl, ◌⊎◌, inl, inr, Bool, true, false, Option, none, some, arith, [], ◌∷◌,
}
use emacs_module_rs.Machine.{Bytes, codes, Emacs, World, Outcome, ok, err, panicked, Act}
use emacs_module_rs.Value.{Value}
use emacs_module_rs.Init.{message}
use emacs_module_rs.Names.{equal_bytes}
use emacs_module_rs.Maps.{Map, map_get, map_insert, map_remove}
use emacs_module_rs.Maps.View.{map_get-map_insert, map_get-map_remove}
use emacs_module_rs.Reloading.{
  Loader, Libraries, Locked, tagged, unloading, and_then, outside, open_and_init, load_locked, load,
  unlocked, ◌>>=◌,
}

equal_bytes_refl : (a : Bytes) → equal_bytes a a ≡ true
equal_bytes_refl [] = refl
equal_bytes_refl (x ∷ xs) = ground (arith, equal_bytes_refl xs)

-- Whether a call ended in a panic.
abbrev pub has_panicked : {A : Type 0} → Outcome A → Bool
has_panicked (ok a) = false
has_panicked (err e) = false
has_panicked (panicked p) = true

module _ {S L : Type 0} (loader : Loader S L) (path : Bytes) where
  -- The library was opened at the path, by this call.
  abbrev pub IsOpened : L → Type 0
  IsOpened lib = (w : World S) × ((loader.open_library path w).0 ≡ ok lib)

  -- What is at the path in the end: the new library if the call ends well, and else that or none;
  -- never the library that was there.
  abbrev pub After : {A : Type 0} → Outcome A → Option L → Type 0
  After (ok v) found = (lib : L) × (found ≡ some lib) × IsOpened lib
  After (err e) found = (found ≡ none) ⊎ ((lib : L) × (found ≡ some lib) × IsOpened lib)
  After (panicked p) found = (found ≡ none) ⊎ ((lib : L) × (found ≡ some lib) × IsOpened lib)

  -- The table at the end of a part of the call, if it was `m` at the start.
  abbrev Leaves : {A : Type 0} → Map L → Bytes → Outcome A × World S × Map L → Type 0
  Leaves m other (o, w, n) = After o (map_get path n) × (map_get other n ≡ map_get other m)

  -- A part that leaves the table, while nothing is at the path.
  continue-Leaves :
      {A B : Type 0} (m n : Map L) (other : Bytes)
      → map_get path n ≡ none
      → map_get other n ≡ map_get other m
      → (o : Outcome A) (w : World S) (f : A → Locked S L B)
      → ((a : A) → o ≡ ok a → Leaves m other (f a w n))
      → Leaves m other (and_then (o, w, n) f)
  continue-Leaves m n other free kept (ok a) w f rest = rest a refl
  continue-Leaves m n other free kept (err e) w f rest = (inl free, kept)
  continue-Leaves m n other free kept (panicked p) w f rest = (inl free, kept)

  -- The last message, when the library is in the table.
  last-Leaves :
      {A : Type 0} (m n : Map L) (other : Bytes) (lib : L)
      → map_get path n ≡ some lib
      → IsOpened lib
      → map_get other n ≡ map_get other m
      → (o : Outcome A) (w : World S) → Leaves m other (o, w, n)
  last-Leaves m n other lib found opened kept (ok a) w = ((lib, found, opened), kept)
  last-Leaves m n other lib found opened kept (err e) w = (inr (lib, found, opened), kept)
  last-Leaves m n other lib found opened kept (panicked p) w = (inr (lib, found, opened), kept)

  abbrev WhenOpened : Outcome L → Type 0
  WhenOpened (ok lib) = IsOpened lib
  WhenOpened (err e) = Unit {0}
  WhenOpened (panicked p) = Unit {0}

  -- The table is left as it is, and a library is opened.
  abbrev Opens : Map L → Outcome L × World S × Map L → Type 0
  Opens m (o, w, n) = WhenOpened o × (n ≡ m)

  continue-Opens :
      {A : Type 0} (m : Map L) (o : Outcome A) (w : World S) (f : A → Locked S L L)
      → ((a : A) → o ≡ ok a → Opens m (f a w m))
      → Opens m (and_then (o, w, m) f)
  continue-Opens m (ok a) w f rest = rest a refl
  continue-Opens m (err e) w f rest = (tt, refl)
  continue-Opens m (panicked p) w f rest = (tt, refl)

  opened-Leaves :
      {A : Type 0} (m n : Map L) (other : Bytes)
      → map_get path n ≡ none
      → map_get other n ≡ map_get other m
      → (r : Outcome L × World S × Map L) (f : L → Locked S L A) → Opens n r
      → ((lib : L) (w : World S) → IsOpened lib → Leaves m other (f lib w n))
      → Leaves m other (and_then r f)
  opened-Leaves m n other free kept (ok lib, w, l) f (opened, e) rest = rw e (rest lib w opened)
  opened-Leaves m n other free kept (err x, w, l) f (opened, e) rest = rw e (inl free, kept)
  opened-Leaves m n other free kept (panicked x, w, l) f (opened, e) rest = rw e (inl free, kept)

  outside-Leaves :
      {A B : Type 0} (m n : Map L) (other : Bytes)
      → map_get path n ≡ none
      → map_get other n ≡ map_get other m
      → (f : Act S A) (w : World S) (g : A → Locked S L B)
      → ((a : A) (v : World S) → Leaves m other (g a v n))
      → Leaves m other ((outside f >>= g) w n)
  outside-Leaves m n other free kept f w g rest =
      continue-Leaves m n other free kept (f w).0 (f w).1 g (λ a _. rest a (f w).1)

  outside-Opens :
      {A : Type 0} (m : Map L) (f : Act S A) (w : World S) (g : A → Locked S L L)
      → ((a : A) (v : World S) → (f w).0 ≡ ok a → Opens m (g a v m))
      → Opens m ((outside f >>= g) w m)
  outside-Opens m f w g rest = continue-Opens m (f w).0 (f w).1 g (λ a e. rest a (f w).1 e)

module _ {S L : Type 0} ⦃E : Emacs S⦄ (loader : Loader S L) (path : Bytes) where
  open_and_init-Opens :
      (w : World S) (m : Map L) → Opens loader path m (open_and_init loader path w m)
  unfolding open_and_init
  open_and_init-Opens w m =
      outside-Opens loader path m (message (tagged path (codes "loading..."))) w _ (λ _ w1 _.
        outside-Opens loader path m (loader.open_library path) w1 _ (λ lib w2 opening.
          outside-Opens loader path m (message (tagged path (codes "initializing..."))) w2 _
            (λ _ w3 _. outside-Opens loader path m (loader.get_init lib) w3 _ (λ rs_init w4 _.
              outside-Opens loader path m rs_init w4 _ (λ _ _ _. ((w1, opening), refl))))))

  load_locked-Leaves :
      (w : World S) (m : Map L) (other : Bytes)
      → equal_bytes path other ≡ false
      → Leaves loader path m other (load_locked loader path w m)
  unfolding load_locked
  load_locked-Leaves w m other apart =
      let n = map_remove path m in
      let free : map_get path n ≡ none =
        rw (map_get-map_remove path path m, equal_bytes_refl path) refl in
      let kept : map_get other n ≡ map_get other m =
        rw (map_get-map_remove path other m, apart) refl in
      outside-Leaves loader path m n other free kept
        (message (unloading loader path (map_get path m))) w _
        (λ _ w1.
          opened-Leaves loader path m n other free kept (open_and_init loader path w1 n) _
            (open_and_init-Opens w1 n)
            (λ lib w2 opened.
              let ending = message (tagged path (codes "loaded and initialized")) w2 in
              last-Leaves loader path m (map_insert path lib n) other lib
                (rw (map_get-map_insert path lib path n, equal_bytes_refl path) refl) opened
                (rw (map_get-map_insert path lib other n, apart) kept) ending.0 ending.1))

  unlocked-Leaves :
      (m : Map L) (other : Bytes) (r : Outcome Value × World S × Map L)
      → Leaves loader path m other r
      → let (o, _, t) = unlocked r in
        After loader path o (map_get path t.entries)
        × (map_get other t.entries ≡ map_get other m)
        × (t.poisoned ≡ has_panicked o)
  unlocked-Leaves m other (ok v, w, n) (found, kept) = (found, kept, refl)
  unlocked-Leaves m other (err e, w, n) (found, kept) = (found, kept, refl)
  unlocked-Leaves m other (panicked p, w, n) (found, kept) = (found, kept, refl)

  -- However load ends while the lock is not poisoned, other paths keep their libraries, the lock
  -- is poisoned exactly if load panicked, and the library that was at the path is gone: in its
  -- place is a library that was opened at the path, or none, which is so only if load failed.
  pub load-table :
      (w : World S) (libraries : Libraries L) (other : Bytes)
      → libraries.poisoned ≡ false
      → equal_bytes path other ≡ false
      → let (o, _, t) = load loader path w libraries in
        After loader path o (map_get path t.entries)
        × (map_get other t.entries ≡ map_get other libraries.entries)
        × (t.poisoned ≡ has_panicked o)
  unfolding load
  load-table w libraries other sound apart = rw sound (
      unlocked-Leaves libraries.entries other (load_locked loader path w libraries.entries)
        (load_locked-Leaves w libraries.entries other apart))
