-- ===== src/Call/Order.antt =====
-- The order in which the arguments of a call are converted.
use emacs_module_rs.Base.{◌≡◌, refl, ap, ◌∙◌, List, [], ◌∷◌, ◌++◌}
use emacs_module_rs.Machine.{Raw, World, Outcome, ok, err, panicked, Act, pure, ◌>>=◌, continue}
use emacs_module_rs.Value.{Value}
use emacs_module_rs.Call.{LispArgs, tuple_args}

module _ {S : Type 0} (ys : List (Act S Value)) where
  abbrev then_back : List Raw → LispArgs S
  then_back front = tuple_args ys >>= λ back. pure (front ++ back)

  abbrev prefixed : Value → List Raw → LispArgs S
  prefixed v raws = pure (v.raw ∷ raws)

  pure_right :
      (o : Outcome (List Raw)) (w : World S) → (o, w) ≡ continue o (λ back. pure ([] ++ back)) w
  pure_right (ok a) w = refl
  pure_right (err e) w = refl
  pure_right (panicked p) w = refl

  prefix_back :
      (v : Value) (front : List Raw) (o : Outcome (List Raw)) (w : World S)
      → (let (o', w') = continue o (λ back. pure (front ++ back)) w in continue o' (prefixed v) w')
        ≡ continue o (λ back. pure ((v.raw ∷ front) ++ back)) w
  prefix_back v front (ok a) w = refl
  prefix_back v front (err e) w = refl
  prefix_back v front (panicked p) w = refl

  prefix_front :
      (v : Value) (o : Outcome (List Raw)) (w : World S)
      → (let (o', w') = continue o then_back w in continue o' (prefixed v) w')
        ≡ (let (o', w') = continue o (prefixed v) w in continue o' then_back w')
  prefix_front v (ok front) w = prefix_back v front (tuple_args ys w).0 (tuple_args ys w).1
  prefix_front v (err e) w = refl
  prefix_front v (panicked p) w = refl

  after_first :
      (f g : Value → LispArgs S) (o : Outcome Value) (w : World S)
      → ((v : Value) → f v w ≡ (g v >>= then_back) w)
      → continue o f w ≡ (let (o', w') = continue o g w in continue o' then_back w')
  after_first f g (ok v) w h = h v
  after_first f g (err e) w h = refl
  after_first f g (panicked p) w h = refl

  -- The arguments of a tuple are converted from left to right: those of the front first, then
  -- those of the back, unless one of the front fails or panics, which ends the conversion.
  pub tuple_args-append :
      (xs : List (Act S Value)) (w : World S)
      → tuple_args (xs ++ ys) w
        ≡ (tuple_args xs >>= λ front. tuple_args ys >>= λ back. pure (front ++ back)) w
  unfolding tuple_args
  tuple_args-append [] w = pure_right (tuple_args ys w).0 (tuple_args ys w).1
  tuple_args-append (m ∷ xs) w =
      after_first _ (λ v. tuple_args xs >>= prefixed v) (m w).0 (m w).1
        (λ v.
          ap (λ (r : Outcome (List Raw) × World S). continue r.0 (prefixed v) r.1)
            (tuple_args-append xs (m w).1)
          ∙ prefix_front v (tuple_args xs (m w).1).0 (tuple_args xs (m w).1).1)
