-- ===== src/Init/Sets.antt =====
-- Which statics an initializer sets (src/global.rs, src/symbol.rs).
use emacs_module_rs.Base.{
  ◌≡◌, refl, ap, Bool-cases, inl, inr, true, Option, none, some, List, [], ◌∷◌, ◌++◌, ◌==◌, ==_iff,
  if◌then◌else◌,
}
use emacs_module_rs.Machine.{
  Bytes, codes, Raw, Emacs, ExitLaws, Static, World, Outcome, ok, err, panicked, Act, pure, ◌>>=◌,
  continue,
}
use emacs_module_rs.Value.{Value, intern}
use emacs_module_rs.Global.{GlobalRef, init, make_global_ref}
use emacs_module_rs.Global.Once.{fill_and_get}
use emacs_module_rs.Frames.{
  Frame, KeepsFrame, KeepsFrame-bind, KeepsFrame-intern, KeepsFrame-call_name,
}
use emacs_module_rs.Unwinding.{get_cell-world, IsFilled}
use emacs_module_rs.Init.{init_to_symbol, init_to_function, init_refs}

abbrev pub AllFilled : {S : Type 0} → List Static → World S → Type 0
AllFilled [] w = Unit
AllFilled (name ∷ rest) w = IsFilled (w.globals name) × AllFilled rest w

-- What an `init` does to the statics: none is unset, and if it ends well its own is set.
pub record Sets {S A : Type 0} (names : List Static) (m : Act S A) : Type 0 where
  pub keeps :
      (w : World S) (other : Static) → IsFilled (w.globals other) → IsFilled ((m w).1.globals other)
  pub sets : (w : World S) (a : A) → (m w).0 ≡ ok a → AllFilled names (m w).1

module _ (name : Static) (raw : Raw) where
  own_cell : (other : Option Raw) → (if name == name then some raw else other) ≡ some raw
  own_cell other = let own : (name == name) ≡ true = (==_iff name name).1 refl in rw own refl

  other_cell :
      (x : Static) (held : Option Raw)
      → IsFilled held
      → IsFilled (if name == x then some raw else held)
  other_cell x held h = elim (Bool-cases (name == x)) [ inl e ↦ rw e tt | inr e ↦ rw e h ]

module _ {S : Type 0} (name : Static) (raw : Raw) where
  fill_and_get-keeps :
      (cell : Option Raw) (w : World S) (other : Static)
      → IsFilled (w.globals other)
      → IsFilled ((fill_and_get name raw cell w).1.globals other)
  fill_and_get-keeps none w other h =
      rw get_cell-world (other_cell name raw other (w.globals other) h)
  fill_and_get-keeps (some x) w other h = h

  fill_and_get-sets :
      (cell : Option Raw) (w : World S) (g : GlobalRef)
      → (fill_and_get name raw cell w).0 ≡ ok g
      → IsFilled ((fill_and_get name raw cell w).1.globals name)
  fill_and_get-sets none w g e = rw get_cell-world (rw (own_cell name raw) tt)
  fill_and_get-sets (some x) w g e = absurd (cc e)

module _ {S : Type 0} ⦃E : Emacs S⦄ (name : Static) (f : Act S Value) (k : KeepsFrame f) where
  kept : (w : World S) → (f w).1.globals ≡ w.globals
  kept w = ap (λ (x : Frame). x.globals) (k.at w)

  abbrev init_end : Value → Act S GlobalRef
  init_end v w1 =
      let (raw, s) = E.make_global_ref v.raw w1.emacs in
      fill_and_get name raw (w1.globals name) (record w1 { emacs = s })

  init_end-keeps :
      (o : Outcome Value) (w1 : World S) (other : Static)
      → IsFilled (w1.globals other)
      → IsFilled ((continue o init_end w1).1.globals other)
  init_end-keeps (ok v) w1 other h =
      let (raw, s) = E.make_global_ref v.raw w1.emacs in
      fill_and_get-keeps name raw (w1.globals name) (record w1 { emacs = s }) other h
  init_end-keeps (err e) w1 other h = h
  init_end-keeps (panicked p) w1 other h = h

  init_end-sets :
      (o : Outcome Value) (w1 : World S) (g : GlobalRef)
      → (continue o init_end w1).0 ≡ ok g
      → IsFilled ((continue o init_end w1).1.globals name)
  init_end-sets (ok v) w1 g e =
      let (raw, s) = E.make_global_ref v.raw w1.emacs in
      fill_and_get-sets name raw (w1.globals name) (record w1 { emacs = s }) g e
  init_end-sets (err x) w1 g e = absurd (cc e)
  init_end-sets (panicked p) w1 g e = absurd (cc e)

  Sets-init : Sets (name ∷ []) (init name f)
  unfolding init make_global_ref
  Sets-init = record {
    keeps = λ w other h. init_end-keeps (f w).0 (f w).1 other (rw kept h);
    sets = λ w g e. (init_end-sets (f w).0 (f w).1 g e, tt);
  }

module _ {S : Type 0} where
  AllFilled-keeps :
      {A : Type 0} {names : List Static} (m : Act S A) (w : World S)
      → Sets names m
      → (held : List Static) → AllFilled held w
      → AllFilled held (m w).1
  AllFilled-keeps m w k [] h = tt
  AllFilled-keeps m w k (name ∷ held) (f, h) = (k.keeps w name f, AllFilled-keeps m w k held h)

  AllFilled-append :
      (xs ys : List Static) (w : World S) → AllFilled xs w → AllFilled ys w → AllFilled (xs ++ ys) w
  AllFilled-append [] ys w h h' = h'
  AllFilled-append (x ∷ xs) ys w (f, h) h' = (f, AllFilled-append xs ys w h h')

module _ {S A B : Type 0} {xs ys : List Static} (m : Act S A) (f : A → Act S B) (km : Sets xs m)
    (kf : (a : A) → Sets ys (f a)) where
  then_keeps :
      (o : Outcome A) (w1 : World S) (other : Static)
      → IsFilled (w1.globals other)
      → IsFilled ((continue o f w1).1.globals other)
  then_keeps (ok a) w1 other h = (kf a).keeps w1 other h
  then_keeps (err e) w1 other h = h
  then_keeps (panicked p) w1 other h = h

  then_sets :
      (o : Outcome A) (w1 : World S) (b : B)
      → ((a : A) → o ≡ ok a → AllFilled xs w1)
      → (continue o f w1).0 ≡ ok b
      → AllFilled (xs ++ ys) (continue o f w1).1
  then_sets (ok a) w1 b h e =
      AllFilled-append xs ys _ (AllFilled-keeps (f a) w1 (kf a) xs (h a refl)) ((kf a).sets w1 b e)
  then_sets (err x) w1 b h e = absurd (cc e)
  then_sets (panicked p) w1 b h e = absurd (cc e)

  pub Sets-bind : Sets (xs ++ ys) (m >>= f)
  Sets-bind = record {
    keeps = λ w other h. then_keeps (m w).0 (m w).1 other (km.keeps w other h);
    sets = λ w b e. then_sets (m w).0 (m w).1 b (λ a. km.sets w a) e;
  }

pub Sets-pure : {S A : Type 0} (a : A) → Sets {S = S} [] (pure a)
Sets-pure a = record { keeps = λ w other h. h; sets = λ w b e. tt }

abbrev pub names_of : List (Static × Bytes) → List Static
names_of [] = []
names_of ((name, _) ∷ rest) = name ∷ names_of rest

module _ {S : Type 0} ⦃E : Emacs S⦄ (exits : ExitLaws S) where
  pub Sets-init_to_symbol :
      (name : Static) (text : Bytes) → Sets (name ∷ []) (init_to_symbol {S = S} name text)
  unfolding init_to_symbol
  Sets-init_to_symbol name text = Sets-init name (intern text) (KeepsFrame-intern exits text)

  pub Sets-init_to_function :
      (name : Static) (text : Bytes) → Sets (name ∷ []) (init_to_function {S = S} name text)
  unfolding init_to_function
  Sets-init_to_function name text = Sets-init name _ (
      KeepsFrame-bind (intern text) _ (KeepsFrame-intern exits text)
        (λ symbol. KeepsFrame-call_name exits (codes "indirect-function") (symbol ∷ [])))

  pub Sets-init_refs :
      (method : Static → Bytes → Act S GlobalRef)
      → ((name : Static) (text : Bytes) → Sets (name ∷ []) (method name text))
      → (refs : List (Static × Bytes)) → Sets (names_of refs) (init_refs method refs)
  unfolding init_refs
  Sets-init_refs method k [] = Sets-pure tt
  Sets-init_refs method k ((name, text) ∷ rest) =
      Sets-bind (method name text) _ (k name text) (λ g. Sets-init_refs method k rest)
