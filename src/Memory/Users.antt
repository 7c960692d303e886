-- ===== src/Memory/Users.antt =====
-- What embedding a value and discarding an object do to the user pointers of the Lisp heap.
use emacs_module_rs.Base.{true, ◌≡◌, refl, ◌==◌, if◌then◌else◌, Option, none, some, List}
use emacs_module_rs.Machine.{Raw, Address, Emacs, IsQuiet, World}
use emacs_module_rs.Exit.Laws.{raw_call-quiet}
use emacs_module_rs.Value.{Value, protect, protect_in, raw_call_value, raw_call_value_unprotected}
use emacs_module_rs.UserPtr.{Transfer, make_user_ptr, box_into_lisp}
use emacs_module_rs.Memory.{TypeId, ObjectId, Embedded, Process, Platform, box_new, embed}

-- The finalizers of the module are those of its types, and two types may share one. The manual of
-- Emacs: a new user pointer is a new object, made of what it is given; references leave the user pointers
-- as they are; only the object that is discarded goes; and through a value that `names` an object
-- the finalizer and the pointer of this object are read, which signals if it is no user pointer.
pub record MemoryLaws {S C : Type 0} ⦃E : Emacs S⦄ (platform : Platform S C)
    (names : Raw → S → Option ObjectId) : Type 0 where
  pub in_module-finalize : (ty : TypeId) → platform.in_module (platform.transfer ty).finalize ≡ true
  pub in_module_inv :
      (f : Address)
      → platform.in_module f ≡ true
      → (ty : TypeId) × (f ≡ (platform.transfer ty).finalize)
  pub make-IsQuiet :
      (f : Option Address) (p : Address) (s : S) → IsQuiet s → IsQuiet (E.make_user_ptr f p s).1
  pub make-users :
      (f : Option Address) (p : Address) (s : S)
      → IsQuiet s
      → (made : ObjectId) × (platform.users made s ≡ none)
        × ((object : ObjectId)
            → platform.users object (E.make_user_ptr f p s).1
              ≡ (if made == object then some (f, p) else platform.users object s))
  pub ref-users :
      (v : Raw) (s : S) (object : ObjectId)
      → platform.users object (E.make_global_ref v s).1 ≡ platform.users object s
  pub discard-users :
      (gone : ObjectId) (s : S) (object : ObjectId)
      → platform.users object (platform.discard gone s)
        ≡ (if gone == object then none else platform.users object s)
  pub get_finalizer :
      (r : Raw) (object : ObjectId) (u : Embedded) (s : S)
      → IsQuiet s
      → names r s ≡ some object
      → platform.users object s ≡ some u
      → E.get_user_finalizer r s ≡ (u.0, s)
  pub get_ptr :
      (r : Raw) (object : ObjectId) (u : Embedded) (s : S)
      → IsQuiet s
      → names r s ≡ some object
      → platform.users object s ≡ some u
      → E.get_user_ptr r s ≡ (u.1, s)
  pub refuses :
      (r : Raw) (object : ObjectId) (s : S)
      → IsQuiet s
      → names r s ≡ some object
      → platform.users object s ≡ none
      → ¬ IsQuiet (E.get_user_finalizer r s).1

module _ {S C : Type 0} ⦃E : Emacs S⦄ {platform : Platform S C} {names : Raw → S → Option ObjectId}
    (laws : MemoryLaws platform names) where
  users-protect_in :
      (roots : Option (List Raw)) (v : Value) (w : World S) (object : ObjectId)
      → platform.users object (protect_in roots v w).1.emacs ≡ platform.users object w.emacs
  users-protect_in none v w object = refl
  users-protect_in (some roots) v w object = laws.ref-users v.raw w.emacs object

  users-box_into_lisp :
      (ty : Transfer) (p : Address) (w : World S)
      → IsQuiet w.emacs
      → (object : ObjectId)
      → platform.users object (box_into_lisp ty p w).1.emacs
        ≡ platform.users object (E.make_user_ptr (some ty.finalize) p w.emacs).1
  unfolding box_into_lisp make_user_ptr raw_call_value raw_call_value_unprotected protect
  users-box_into_lisp ty p w q object =
      let q' = laws.make-IsQuiet (some ty.finalize) p w.emacs q in
      rw (raw_call-quiet (E.make_user_ptr (some ty.finalize) p) w q') (
        users-protect_in w.protected _
          (record w { emacs = (E.make_user_ptr (some ty.finalize) p w.emacs).1 }) object)

  -- A value that is embedded has a box of its own, and an object of its own in Lisp.
  pub users-embed :
      (ty : TypeId) (c : C) (x : Process S C)
      → IsQuiet x.world.emacs
      → (made : ObjectId) × (platform.users made x.world.emacs ≡ none)
        × ((object : ObjectId)
            → platform.users object (embed platform ty c x).1.world.emacs ≡ (
                if made == object
                then some (some (platform.transfer ty).finalize, platform.allocate x.heap)
                else platform.users object x.world.emacs))
  unfolding embed box_new
  users-embed ty c x q =
      let fin = (platform.transfer ty).finalize in
      let p = platform.allocate x.heap in
      let (made, new, rest) = laws.make-users (some fin) p x.world.emacs q in
      (
        made,
        new,
        λ object. rw (users-box_into_lisp (platform.transfer ty) p x.world q object) (rest object),
      )
