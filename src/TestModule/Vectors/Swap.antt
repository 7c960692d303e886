-- ===== src/TestModule/Vectors/Swap.antt =====
-- `swap_components` swaps by exclusive or.
use emacs_module_rs.Base.{◌≡◌, refl, ap, some, ℤ, Option-cases, inl, inr}
use emacs_module_rs.Machine.{Address, Emacs, Outcome, ok, err, panicked}
use emacs_module_rs.Convert.Integer.{i64, InRange}
use emacs_module_rs.Convert.Integer.Xor.{xor_i64-left, xor_i64-right}
use emacs_module_rs.Value.{Value}
use emacs_module_rs.UserPtr.{get_mut}
use emacs_module_rs.Memory.{TypeId, Live, Platform, Process, done}
use emacs_module_rs.TestModule.State.{
  Contents, vector, map, integer, string_wrapper, Cmd, ret, in_world, fetch, store, as_vector,
  resume, ◌>>=◌, ◌>>◌,
}
use emacs_module_rs.TestModule.Vectors.{xor_swap, swap_components}

-- The two components are `i64`s.
abbrev pub Fits : Contents → Type 0
Fits (vector x y) = InRange i64 x × InRange i64 y
Fits (map m) = Unit {0}
Fits (integer i) = Unit {0}
Fits (string_wrapper s) = Unit {0}

xor_swap-plain : (x y : ℤ) → InRange i64 x → InRange i64 y → xor_swap (x, y) ≡ (y, x)
unfolding xor_swap
xor_swap-plain x y rx ry =
    rw (xor_i64-right x y rx ry) (ap (λ (a : ℤ). (a, x)) (xor_i64-left x y rx ry))

module _ {S : Type 0} (v : Value) where
  -- The swap that is meant.
  abbrev plain_from : Address → Cmd S Value
  plain_from p = do c ← fetch p; vec ← as_vector c; store p (vector vec.1 vec.0); ret v

  abbrev pub xor_from : Address → Cmd S Value
  xor_from p = do
    c ← fetch p
    vec ← as_vector c
    let swapped = xor_swap vec
    store p (vector swapped.0 swapped.1)
    ret v

  content_same :
      (p : Address) (c : Contents) (x : Process S Contents)
      → Fits c
      → (as_vector c >>= λ vec. store p (vector (xor_swap vec).0 (xor_swap vec).1) >> ret v) x
        ≡ (as_vector c >>= λ vec. store p (vector vec.1 vec.0) >> ret v) x
  content_same p (vector a b) x (ra, rb) = rw (xor_swap-plain a b ra rb) refl
  content_same p (map m) x fits = refl
  content_same p (integer i) x fits = refl
  content_same p (string_wrapper s) x fits = refl

  from_same :
      (p : Address) (x : Process S Contents)
      → ((p : Address) (b : Live Contents) → x.heap p ≡ some b → Fits b.content)
      → xor_from p x ≡ plain_from p x
  from_same p x fits = elim (Option-cases (x.heap p)) [
    | inl e ↦ rw e refl
    | inr (b, e) ↦ rw e (content_same p b.content x (fits p b e))
  ]

  resume_same :
      (o : Outcome Address) (x : Process S Contents)
      → ((p : Address) (b : Live Contents) → x.heap p ≡ some b → Fits b.content)
      → resume (done (o, x)) xor_from ≡ resume (done (o, x)) plain_from
  resume_same (ok p) x fits = from_same p x fits
  resume_same (err e) x fits = refl
  resume_same (panicked e) x fits = refl

module _ {S : Type 0} ⦃E : Emacs S⦄ (platform : Platform S Contents) (ty : TypeId) where
  unfoldable pub swap_plain : Value → Cmd S Value
  unfolding get_mut
  swap_plain v = in_world (get_mut (platform.transfer ty) v) >>= plain_from v

  -- If the components of all embedded vectors are i64s, swap_components by exclusive or does on
  -- any value what a plain swap does, its errors, panics and faults included.
  pub swap_components-swap_plain :
      (v : Value) (x : Process S Contents)
      → ((p : Address) (b : Live Contents) → x.heap p ≡ some b → Fits b.content)
      → swap_components platform ty v x ≡ swap_plain v x
  unfolding swap_components swap_plain
  swap_components-swap_plain v x fits =
      let (o, w) = get_mut (platform.transfer ty) v x.world in
      resume_same v o (record x { world = w }) fits
