-- ===== src/UserPtr/Tags.antt =====
-- The finalizer of a user pointer as a type tag.
use emacs_module_rs.Base.{
  Bool-cases, inl, inr, if◌then◌else◌, ◌≡◌, ◌≢◌, refl, true, false, Option, none, some, arith, List,
}
use emacs_module_rs.Machine.{
  Address, Raw, Emacs, IsQuiet, wrong_type_user_ptr, kind, World, ok, err, ◌>>=◌,
}
use emacs_module_rs.Exit.Laws.{raw_call-quiet}
use emacs_module_rs.Value.{value, protect, protect_in, raw_call_value, raw_call_value_unprotected}
use emacs_module_rs.UserPtr.{
  Transfer, is_finalizer, get_user_ptr, get_user_finalizer, get_raw_pointer, make_user_ptr,
  box_into_lisp,
}

-- The manual on user pointers ("Module Values"): what one is made of is read back. `embeds r s` is
-- the finalizer and the pointer of the user pointer `r`; a new global reference is the value that it
-- refers to, or another, and leaves user pointers as they are.
pub record UserPtrLaws (S : Type 0) ⦃E : Emacs S⦄
    (embeds : Raw → S → Option (Option Address × Address)) : Type 0 where
  pub make-IsQuiet :
      (f : Option Address) (p : Address) (s : S) → IsQuiet s → IsQuiet (E.make_user_ptr f p s).1
  pub make-embeds :
      (f : Option Address) (p : Address) (s : S)
      → IsQuiet s
      → let (r, s') = E.make_user_ptr f p s in embeds r s' ≡ some (f, p)
  pub get_finalizer :
      (r : Raw) (f : Option Address) (p : Address) (s : S)
      → IsQuiet s
      → embeds r s ≡ some (f, p)
      → E.get_user_finalizer r s ≡ (f, s)
  pub get_ptr :
      (r : Raw) (f : Option Address) (p : Address) (s : S)
      → IsQuiet s
      → embeds r s ≡ some (f, p)
      → E.get_user_ptr r s ≡ (p, s)
  pub ref-IsQuiet : (v : Raw) (s : S) → IsQuiet s → IsQuiet (E.make_global_ref v s).1
  pub ref-embeds : (v r : Raw) (s : S) → embeds r (E.make_global_ref v s).1 ≡ embeds r s

module _ {S : Type 0} ⦃E : Emacs S⦄ (ty : Transfer) (p : Address) where
  -- The test on the finalizer decides: the pointer, or an error with the expected type's name.
  pub get_raw_pointer_read :
      (r : Raw) (f : Option Address) (w : World S)
      → IsQuiet w.emacs
      → E.get_user_finalizer r w.emacs ≡ (f, w.emacs)
      → E.get_user_ptr r w.emacs ≡ (p, w.emacs)
      → get_raw_pointer ty (value r) w
        ≡ (if is_finalizer ty f then ok p else err (kind (wrong_type_user_ptr ty.type_name)), w)
  unfolding get_raw_pointer get_user_ptr get_user_finalizer
  get_raw_pointer_read r f w q fin ptr =
      let calm : IsQuiet (E.get_user_finalizer r w.emacs).1 = rw fin q in
      let calm' : IsQuiet (E.get_user_ptr r w.emacs).1 = rw ptr q in
      rw (raw_call-quiet (E.get_user_finalizer r) w calm, fin)
        (elim (Bool-cases (is_finalizer ty f)) [
          | inl same ↦ rw (same, raw_call-quiet (E.get_user_ptr r) w calm', ptr) refl
          | inr other ↦ rw other refl
        ])

module _ {S : Type 0} ⦃E : Emacs S⦄ {embeds : Raw → S → Option (Option Address × Address)}
    (laws : UserPtrLaws S embeds) (ty : Transfer) (p : Address) where
  pub get_raw_pointer-embeds :
      (r : Raw) (f : Option Address) (w : World S)
      → IsQuiet w.emacs
      → embeds r w.emacs ≡ some (f, p)
      → get_raw_pointer ty (value r) w
        ≡ (if is_finalizer ty f then ok p else err (kind (wrong_type_user_ptr ty.type_name)), w)
  get_raw_pointer-embeds r f w q e =
      get_raw_pointer_read ty p r f w q (laws.get_finalizer r f p w.emacs q e)
        (laws.get_ptr r f p w.emacs q e)

  protect_in-embeds :
      (roots : Option (List Raw)) (r : Raw) (f : Option Address) (w : World S)
      → IsQuiet w.emacs
      → embeds r w.emacs ≡ some (f, p)
      → let (o, w') = protect_in roots (value r) w in
        (o ≡ ok (value r)) × IsQuiet w'.emacs × (embeds r w'.emacs ≡ some (f, p))
  protect_in-embeds none r f w q e = (refl, q, e)
  protect_in-embeds (some roots) r f w q e =
      (refl, laws.ref-IsQuiet r w.emacs q, rw (laws.ref-embeds r r w.emacs) e)

  pub box_into_lisp-embeds :
      (w : World S)
      → IsQuiet w.emacs
      → let r = (E.make_user_ptr (some ty.finalize) p w.emacs).0 in
        let (o, w') = box_into_lisp ty p w in
        (o ≡ ok (value r)) × IsQuiet w'.emacs × (embeds r w'.emacs ≡ some (some ty.finalize, p))
  unfolding box_into_lisp make_user_ptr raw_call_value raw_call_value_unprotected protect
  box_into_lisp-embeds w q =
      let s' = (E.make_user_ptr (some ty.finalize) p w.emacs).1 in
      rw
        (raw_call-quiet (E.make_user_ptr (some ty.finalize) p) w
          (laws.make-IsQuiet (some ty.finalize) p w.emacs q))
        (protect_in-embeds w.protected _ (some ty.finalize) (record w { emacs = s' })
          (laws.make-IsQuiet (some ty.finalize) p w.emacs q)
          (laws.make-embeds (some ty.finalize) p w.emacs q))

-- `finalize::<T>` as a tag.
pub tag_same : (ty : Transfer) → is_finalizer ty (some ty.finalize) ≡ true
tag_same ty = ground arith

tag_other :
    (ty ty' : Transfer) → ty.finalize ≢ ty'.finalize → is_finalizer ty' (some ty.finalize) ≡ false
tag_other ty ty' ne = ground arith

module _ {S : Type 0} ⦃E : Emacs S⦄ {embeds : Raw → S → Option (Option Address × Address)}
    (laws : UserPtrLaws S embeds) (ty : Transfer) (p : Address) (w : World S)
    (q : IsQuiet w.emacs) where
  -- A box that is embedded in Lisp comes back as the pointer it was made of when it is read as
  -- the same type, if no exit was pending and user pointers follow UserPtrLaws.
  pub get_raw_pointer-box_into_lisp : ((box_into_lisp ty p >>= get_raw_pointer ty) w).0 ≡ ok p
  get_raw_pointer-box_into_lisp =
      let (o, calm, e) = box_into_lisp-embeds laws ty p w q in
      rw
        (
          o,
          get_raw_pointer-embeds laws ty p (E.make_user_ptr (some ty.finalize) p w.emacs).0
              (some ty.finalize) (box_into_lisp ty p w).1 calm e,
          tag_same ty,
        )
        refl

  -- A box that is embedded in Lisp and read as a type with another finalizer is an error that
  -- names the expected type, if no exit was pending and user pointers follow UserPtrLaws.
  pub get_raw_pointer_refuses :
      (ty' : Transfer)
      → ty.finalize ≢ ty'.finalize
      → ((box_into_lisp ty p >>= get_raw_pointer ty') w).0
        ≡ err (kind (wrong_type_user_ptr ty'.type_name))
  get_raw_pointer_refuses ty' ne =
      let (o, calm, e) = box_into_lisp-embeds laws ty p w q in
      rw
        (
          o,
          get_raw_pointer-embeds laws ty' p (E.make_user_ptr (some ty.finalize) p w.emacs).0
              (some ty.finalize) (box_into_lisp ty p w).1 calm e,
          tag_other ty ty' ne,
        )
        refl
