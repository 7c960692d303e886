-- ===== src/TestModule/Vectors/Safe.antt =====
-- `swap_components` writes through a pointer that it got from Lisp: what it points to is a vector.
use emacs_module_rs.Base.{◌≡◌, ◌≢◌, refl, Option, some, ℤ}
use emacs_module_rs.Machine.{Raw, Address, Emacs, IsQuiet, Outcome, ok, err, panicked}
use emacs_module_rs.Value.{Value, value}
use emacs_module_rs.UserPtr.{get_mut, ref_from_lisp}
use emacs_module_rs.Memory.{TypeId, ObjectId, Live, live, Platform, Process, write, done, fault}
use emacs_module_rs.Memory.Users.{MemoryLaws}
use emacs_module_rs.Memory.Steps.{Reach, IsOwned}
use emacs_module_rs.Memory.Reading.{ref_from_lisp-IsLive}
use emacs_module_rs.TestModule.State.{Contents, vector, resume}
use emacs_module_rs.TestModule.Vectors.{swap_components, xor_swap}
use emacs_module_rs.TestModule.Vectors.Swap.{xor_from}

abbrev pub IsVector : Contents → Type 0
IsVector c = (x : ℤ) × (y : ℤ) × (c ≡ vector x y)

module _ {S : Type 0} (v : Value) where
  xor_from_safe :
      (p : Address) (x : Process S Contents) (b : Live Contents)
      → x.heap p ≡ some b
      → IsVector b.content
      → xor_from v p x ≢ fault
  xor_from_safe p x b held (a, c, is) e =
      let swapped = xor_swap (a, c) in
      let y = record x {
        heap = write x.heap p (some (live b.type_id (vector swapped.0 swapped.1)));
      } in
      let runs : xor_from v p x ≡ done (ok v, y) = rw (held, is) (rw held refl) in cc

  resume_safe :
      (o : Outcome Address) (x : Process S Contents)
      → ((p : Address) → o ≡ ok p → (b : Live Contents) × (x.heap p ≡ some b) × IsVector b.content)
      → resume (done (o, x)) (xor_from v) ≢ fault
  resume_safe (ok p) x found e = let (b, held, is) = found p refl in xor_from_safe p x b held is e
  resume_safe (err x) y found e = cc
  resume_safe (panicked x) y found e = cc

module _ {S : Type 0} ⦃E : Emacs S⦄ {platform : Platform S Contents}
    {names : Raw → S → Option ObjectId} (laws : MemoryLaws platform names) where
  -- In any memory that the module, Lisp and the collector reach by their steps from one whose
  -- boxes each have one owner, swap_components is no undefined behaviour on a value that names
  -- an object, while no exit is pending, if each box of a type with the finalizer of its type
  -- holds a vector: what it writes through is a live vector. The platform follows MemoryLaws.
  pub swap_components_safe :
      {x y : Process S Contents}
      → Reach platform x y
      → IsOwned platform x
      → (ty : TypeId) (r : Raw) (object : ObjectId) → IsQuiet y.world.emacs
      → names r y.world.emacs ≡ some object
      → ((p : Address) (b : Live Contents)
          → y.heap p ≡ some b
          → (platform.transfer b.type_id).finalize ≡ (platform.transfer ty).finalize
          → IsVector b.content)
      → swap_components platform ty (value r) y ≢ fault
  unfolding swap_components get_mut ref_from_lisp
  swap_components_safe {y = y} reach owned ty r object q name typed =
      let (o, w) = get_mut (platform.transfer ty) (value r) y.world in
      resume_safe (value r) o (record y { world = w })
        (λ p given.
          let (b, held, is) = ref_from_lisp-IsLive laws reach owned ty r object p q name given in
          (b, held, typed p b held is))
