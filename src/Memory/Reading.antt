-- ===== src/Memory/Reading.antt =====
-- What Rust reads through a user pointer is a live box of the type that it asked for.
use emacs_module_rs.Base.{
  Bool, if◌then◌else◌, ◌≡◌, ◌≢◌, ap, ◌∙◌, Option, none, some, Option-cases, inl, inr, arith, refl,
}
use emacs_module_rs.Machine.{
  continue-ok, Error, Raw, Address, Emacs, IsQuiet, World, ok, err, kind, wrong_type_user_ptr,
}
use emacs_module_rs.Exit.{raw_call, handle_exit}
use emacs_module_rs.Value.{value}
use emacs_module_rs.UserPtr.{
  Transfer, is_finalizer, get_user_finalizer, get_raw_pointer, ref_from_lisp,
}
use emacs_module_rs.UserPtr.Tags.{get_raw_pointer_read}
use emacs_module_rs.Memory.{TypeId, ObjectId, Embedded, Live, Process, Platform}
use emacs_module_rs.Memory.Users.{MemoryLaws}
use emacs_module_rs.Memory.Steps.{Reach, IsOwned, fin}
use emacs_module_rs.Memory.Collecting.{Reach-IsOwned}

module _ {S : Type 0} ⦃E : Emacs S⦄ where
  raw_call-exit :
      {A : Type 0} (f : S → A × S) (w : World S) (a : A)
      → ¬ IsQuiet (f w.emacs).1
      → (raw_call f w).0 ≢ ok a
  unfolding raw_call handle_exit
  raw_call-exit f w a loud e = ground (arith, loud, e)

module _ {S C : Type 0} ⦃E : Emacs S⦄ {platform : Platform S C} {names : Raw → S → Option ObjectId}
    (laws : MemoryLaws platform names) where
  -- A pointer is given only where the finalizer of the type is found.
  tagged_pointer :
      (ty : TypeId) (u : Embedded) (p : Address) (b : Bool) (e : Error)
      → is_finalizer (platform.transfer ty) u.0 ≡ b
      → (if b then ok u.1 else err e) ≡ ok p
      → u ≡ (some (platform.transfer ty).finalize, p)
  tagged_pointer ty (none, p0) p b e test given = ground (arith, test, given)
  tagged_pointer ty (some f, p0) p b e test given = ground (arith, test, given)

  get_raw_pointer-exit :
      (ty : Transfer) (r : Raw) (p : Address) (w : World S)
      → ¬ IsQuiet (E.get_user_finalizer r w.emacs).1
      → (get_raw_pointer ty (value r) w).0 ≢ ok p
  unfolding get_raw_pointer get_user_finalizer
  get_raw_pointer-exit ty r p w loud e =
      let w1 = (raw_call (E.get_user_finalizer r) w).1 in
      let (fin, began, _) = continue-ok (raw_call (E.get_user_finalizer r) w).0 _ w1 p e in
      raw_call-exit (E.get_user_finalizer r) w fin loud began

  get_raw_pointer-owner :
      (ty : TypeId) (r : Raw) (object : ObjectId) (p : Address) (w : World S)
      → IsQuiet w.emacs
      → names r w.emacs ≡ some object
      → (get_raw_pointer (platform.transfer ty) (value r) w).0 ≡ ok p
      → platform.users object w.emacs ≡ some (some (platform.transfer ty).finalize, p)
  get_raw_pointer-owner ty r object p w q name e =
      elim (Option-cases (platform.users object w.emacs)) [
        | inl missing ↦ absurd (
            get_raw_pointer-exit (platform.transfer ty) r p w
              (laws.refuses r object w.emacs q name missing) e)
        | inr (u, there) ↦
            let reads =
              get_raw_pointer_read (platform.transfer ty) u.1 r u.0 w q
                (laws.get_finalizer r object u w.emacs q name there)
                (laws.get_ptr r object u w.emacs q name there) in
            there
            ∙ ap some (
                tagged_pointer ty u p (is_finalizer (platform.transfer ty) u.0)
                  (kind (wrong_type_user_ptr (platform.transfer ty).type_name)) refl
                  (rw reads at e))
      ]

  -- In any memory that the module, Lisp and the collector reach by their steps from one whose
  -- boxes each have one owner, if a value that names an object is read as a type while no exit
  -- is pending, and gives a pointer, then a live box is there, of a type that has the same
  -- finalizer: of no other type, unless the compiler gave the two one finalizer. The platform
  -- follows MemoryLaws.
  pub ref_from_lisp-IsLive :
      {x y : Process S C}
      → Reach platform x y
      → IsOwned platform x
      → (ty : TypeId) (r : Raw) (object : ObjectId) (p : Address) → IsQuiet y.world.emacs
      → names r y.world.emacs ≡ some object
      → (ref_from_lisp (platform.transfer ty) (value r) y.world).0 ≡ ok p
      → (b : Live C) × (y.heap p ≡ some b)
        × ((platform.transfer b.type_id).finalize ≡ (platform.transfer ty).finalize)
  unfolding ref_from_lisp
  ref_from_lisp-IsLive {y = y} reach owned ty r object p q name e =
      (Reach-IsOwned laws reach owned).box_of object ty p
        (get_raw_pointer-owner ty r object p y.world q name e)
