-- ===== src/Tests/Collected.antt =====
-- Symbols that are made, collected around and printed, in the small Emacs.
use emacs_module_rs.Base.{
  ◌≡◌, refl, true, false, Bool, Option, none, some, List, [], ◌∷◌, ◌++◌, arith, get_elem?, ap, ◌∙◌,
}
use emacs_module_rs.Machine.{Bytes, codes, Raw, World, ok, pure}
use emacs_module_rs.Names.{equal_bytes}
use emacs_module_rs.Exit.{raw_call, handle_exit, non_local_exit_get, non_local_exit_clear}
use emacs_module_rs.Value.{
  Value, value, intern, cstring, protect, protect_in, raw_call_value, raw_call_value_unprotected,
}
use emacs_module_rs.Call.{values_args, call, call_name, call_value, call_unprotected}
use emacs_module_rs.TestModule.Lifetimes.{create, gc, print, uninterned, gc_after_uninterning}
use emacs_module_rs.TestModule.Lifetimes.Protected.{AllProtected}
use emacs_module_rs.TestModule.Lifetimes.Collected.{
  Stays, Stays-bind, gc_after_uninterning-AllProtected,
}
use emacs_module_rs.Tests.Toy.{
  Toy, toy, Object, symbol, text, int, float, lisp_list, vec, user_ptr, function, apply, toy_refs,
  toy-ExitLaws, toy-RefLaws,
}
use emacs_module_rs.Tests.Exits.{toy-KeepingCalls}
use emacs_module_rs.Tests.References.{fresh, fresh-IsSettled}

-- A symbol of the name has been made.
abbrev found : Bool → Bool → Bool
found true rest = true
found false rest = rest

abbrev named : Bytes → List Object → Bool
named who [] = false
named who (symbol name ∷ rest) = found (equal_bytes who name) (named who rest)
named who (_ ∷ rest) = named who rest

-- The collector has been called by its name.
abbrev Called : Toy → Type 0
Called s = named (codes "garbage-collect") s.objects ≡ true

found-later : (b m n : Bool) → (m ≡ true → n ≡ true) → found b m ≡ true → found b n ≡ true
found-later true m n k h = refl
found-later false m n k h = k h

named-append :
    (who : Bytes) (xs : List Object) (o : Object)
    → named who xs ≡ true
    → named who (xs ++ o ∷ []) ≡ true
named-append who [] o h = absurd (ground (arith, h))
named-append who (symbol name ∷ xs) o h =
    found-later (equal_bytes who name) _ _ (named-append who xs o) h
named-append who (text t ∷ xs) o h = named-append who xs o h
named-append who (int t ∷ xs) o h = named-append who xs o h
named-append who (float t ∷ xs) o h = named-append who xs o h
named-append who (lisp_list t ∷ xs) o h = named-append who xs o h
named-append who (vec t ∷ xs) o h = named-append who xs o h
named-append who (user_ptr t p ∷ xs) o h = named-append who xs o h
named-append who (function t ∷ xs) o h = named-append who xs o h

-- `Called`, of the objects and any name.
Called-objects :
    (who : Bytes) (o : Option Object) (args : List Raw) (s : Toy)
    → named who s.objects ≡ true
    → named who (apply o args s).1.objects ≡ true
Called-objects who o args s h = ground (arith, named-append who s.objects (lisp_list args), h)

Called-apply :
    (o : Option Object) (args : List Raw) (s : Toy) → Called s → Called (apply o args s).1
Called-apply o args s h = Called-objects (codes "garbage-collect") o args s h

Stays-pure : {A : Type 0} (a : A) → Stays Called (pure a)
Stays-pure a = record { at = λ w h. h }

handle_exit-objects :
    {A : Type 0} (a : A) (w : World Toy) → (handle_exit a w).1.emacs.objects ≡ w.emacs.objects
unfolding handle_exit non_local_exit_get non_local_exit_clear
handle_exit-objects a w = ground arith

Stays-raw_call :
    {A : Type 0} (f : Toy → A × Toy)
    → ((s : Toy) → Called s → Called (f s).1)
    → Stays Called (raw_call f)
unfolding raw_call
Stays-raw_call f k = record {
  at = λ w h.
      ap (named (codes "garbage-collect"))
        (handle_exit-objects (f w.emacs).0 (record w { emacs = (f w.emacs).1 }))
      ∙ k w.emacs h;
}

make-objects : (v : Raw) (s : Toy) → (toy.make_global_ref v s).1.objects ≡ s.objects
make-objects v s = ground arith

Called-protect_in :
    (roots : Option (List Raw)) (v : Value) (w : World Toy)
    → Called w.emacs
    → Called (protect_in roots v w).1.emacs
Called-protect_in none v w h = h
Called-protect_in (some roots) v w h =
    ap (named (codes "garbage-collect")) (make-objects v.raw w.emacs) ∙ h

Stays-protect : (v : Value) → Stays {A = Value} Called (protect v)
unfolding protect
Stays-protect v = record { at = λ w h. Called-protect_in w.protected v w h }

Stays-print : (v : Value) → Stays Called (print v)
unfolding print call_name call call_value call_unprotected raw_call_value_unprotected intern cstring
    raw_call_value
Stays-print v =
    let print_name = codes "print" in
    Stays-bind (intern print_name) (λ f. call_value f (values_args (v ∷ [])))
      (Stays-bind (raw_call_value_unprotected (toy.intern print_name)) protect
        (Stays-bind (raw_call (toy.intern print_name)) _
          (Stays-raw_call (toy.intern print_name)
            (λ s h. named-append (codes "garbage-collect") s.objects (symbol print_name) h))
          (λ raw. Stays-pure (value raw)))
        Stays-protect)
      (λ f.
        Stays-bind (raw_call_value_unprotected (toy.funcall f.raw (v.raw ∷ []))) protect
          (Stays-bind (raw_call (toy.funcall f.raw (v.raw ∷ []))) _
            (Stays-raw_call (toy.funcall f.raw (v.raw ∷ []))
              (λ s h. Called-apply (get_elem? s.objects f.raw) (v.raw ∷ []) s h))
            (λ raw. Stays-pure (value raw)))
          Stays-protect)

three : (create 3 uninterned fresh).0 ≡ ok (value 15 ∷ value 17 ∷ value 19 ∷ [])
unfolding create intern cstring call_name call call_value call_unprotected raw_call_value
    raw_call_value_unprotected protect raw_call handle_exit
three = refl

called : Called (gc (create 3 uninterned fresh).1).1.emacs
unfolding gc create intern cstring call_name call call_value call_unprotected raw_call_value
    raw_call_value_unprotected protect raw_call handle_exit
called = refl

gc_after_uninterning-AllProtected_example :
    let vs = value 15 ∷ value 17 ∷ value 19 ∷ [] in
    let made = (create 3 uninterned fresh).1 in
    let over = (gc_after_uninterning fresh).1 in
    AllProtected toy_refs vs made
    × AllProtected toy_refs vs (gc made).1
    × AllProtected toy_refs vs over
    × Called over.emacs
gc_after_uninterning-AllProtected_example =
    gc_after_uninterning-AllProtected toy-ExitLaws toy-RefLaws toy-KeepingCalls Called (λ r. 0)
      fresh [] (value 15 ∷ value 17 ∷ value 19 ∷ []) fresh-IsSettled refl three called Stays-print
