-- ===== src/TestModule/HashMap/Refines.antt =====
-- The calls that Lisp makes on an embedded map, in any order, answer as the function does that the
-- map stands for.
use emacs_module_rs.Base.{
  ◌≡◌, refl, ap, ◌∙◌, ◌==◌, Option, some, List, [], ◌∷◌, true, arith, fun_ext,
}
use emacs_module_rs.Machine.{Bytes, Address, Emacs, IsQuiet, World, Borrow, shared, exclusive, ok}
use emacs_module_rs.Value.{Value}
use emacs_module_rs.UserPtr.{
  Transfer, into_ref, into_ref_mut, ref_from_lisp, set_borrow, release, released,
}
use emacs_module_rs.UserPtr.Tags.{get_raw_pointer_read, tag_same}
use emacs_module_rs.Memory.{TypeId, live, write, Platform, Process, done}
use emacs_module_rs.Memory.Owners.{write-at}
use emacs_module_rs.TestModule.State.{Contents, map, Cmd, ret, with_ref, with_ref_mut, ◌>>=◌}
use emacs_module_rs.Maps.{Map, map_get, map_insert}
use emacs_module_rs.Maps.View.{Spec, view, updated, map_get-map_insert}
use emacs_module_rs.TestModule.HashMap.{get, set}

pub data Op : Type 0 where
  getting : Bytes → Op
  setting : (key value : Bytes) → Op

-- What the calls should answer.
abbrev pub answer : Op → Spec Bytes → Option Bytes
answer (getting key) f = f key
answer (setting key value) f = f key

abbrev pub after : Op → Spec Bytes → Spec Bytes
after (getting key) f = f
after (setting key value) f = updated key value f

abbrev pub answers : List Op → Spec Bytes → List (Option Bytes)
answers [] f = []
answers (op ∷ ops) f = answer op f ∷ answers ops (after op f)

-- And what the map should be after them.
abbrev pub afters : List Op → Spec Bytes → Spec Bytes
afters [] f = f
afters (op ∷ ops) f = afters ops (after op f)

module _ {S : Type 0} ⦃E : Emacs S⦄ where
  -- The value embeds the box at an address as a type.
  abbrev pub PointsTo : Transfer → Value → Address → S → Type 0
  PointsTo ty v p s =
      IsQuiet s
      × (E.get_user_finalizer v.raw s ≡ (some ty.finalize, s))
      × (E.get_user_ptr v.raw s ≡ (p, s))

  pub ref_from_lisp-PointsTo :
      (ty : Transfer) (v : Value) (p : Address) (w : World S)
      → PointsTo ty v p w.emacs
      → ref_from_lisp ty v w ≡ (ok p, w)
  unfolding ref_from_lisp
  ref_from_lisp-PointsTo ty v p w (q, fin, ptr) =
      rw (get_raw_pointer_read ty p v.raw (some ty.finalize) w q fin ptr, tag_same ty) refl

  into_ref-free :
      (ty : Transfer) (v : Value) (p : Address) (w : World S)
      → PointsTo ty v p w.emacs
      → w.borrows p ≡ shared 0
      → into_ref ty v w ≡ (ok p, set_borrow p (shared 1) w)
  unfolding into_ref
  into_ref-free ty v p w points free = rw (ref_from_lisp-PointsTo ty v p w points, free) refl

  pub into_ref_mut-free :
      (ty : Transfer) (v : Value) (p : Address) (w : World S)
      → PointsTo ty v p w.emacs
      → w.borrows p ≡ shared 0
      → into_ref_mut ty v w ≡ (ok p, set_borrow p exclusive w)
  unfolding into_ref_mut
  into_ref_mut-free ty v p w points free = rw (ref_from_lisp-PointsTo ty v p w points, free) refl

module _ {S : Type 0} where
  pub release-set_borrow :
      (p : Address) (b : Borrow) (w : World S)
      → (release p (set_borrow p b w)).borrows p ≡ released b
  release-set_borrow p b w = let same : (p == p) ≡ true = ground arith in rw same refl

module _ {S : Type 0} ⦃E : Emacs S⦄ (platform : Platform S Contents) (ty : TypeId) (v : Value)
    (p : Address) where
  abbrev pub run_op : Op → Cmd S (Option Bytes)
  run_op (getting key) = get platform ty v key
  run_op (setting key value) = set platform ty v key value

  -- The calls, one after the other.
  abbrev pub run_ops : List Op → Cmd S (List (Option Bytes))
  run_ops [] = ret []
  run_ops (op ∷ ops) = do a ← run_op op; rest ← run_ops ops; ret (a ∷ rest)

  -- The value embeds a map that is not borrowed.
  abbrev pub Holds : Map Bytes → Process S Contents → Type 0
  Holds m x =
      PointsTo (platform.transfer ty) v p x.world.emacs
      × (x.heap p ≡ some (live ty (map m)))
      × (x.world.borrows p ≡ shared 0)

  get-Holds :
      (key : Bytes) (m : Map Bytes) (x : Process S Contents)
      → Holds m x
      → (y : Process S Contents) × (get platform ty v key x ≡ done (ok (map_get key m), y))
        × Holds m y
  unfolding get with_ref
  get-Holds key m x (points, held, free) = (
    record x { world = release p (set_borrow p (shared 1) x.world) },
    rw (into_ref-free (platform.transfer ty) v p x.world points free, held) refl,
    (points, held, release-set_borrow p (shared 1) x.world),
  )

  set-Holds :
      (key value : Bytes) (m : Map Bytes) (x : Process S Contents)
      → Holds m x
      → (y : Process S Contents) × (set platform ty v key value x ≡ done (ok (map_get key m), y))
        × Holds (map_insert key value m) y
  unfolding set with_ref_mut
  set-Holds key value m x (points, held, free) = (
    record x {
      world = release p (set_borrow p exclusive x.world);
      heap = write x.heap p (some (live ty (map (map_insert key value m))));
    },
    rw (into_ref_mut-free (platform.transfer ty) v p x.world points free, held) (rw held refl),
    (points, write-at x.heap p p _, release-set_borrow p exclusive x.world),
  )

  run_op-Holds :
      (op : Op) (m : Map Bytes) (x : Process S Contents)
      → Holds m x
      → (y : Process S Contents) × (n : Map Bytes) × (run_op op x
          ≡ done (ok (answer op (view m)), y))
        × Holds n y
        × (view n ≡ after op (view m))
  run_op-Holds (getting key) m x h =
      let (y, runs, holds) = get-Holds key m x h in (y, m, runs, holds, refl)
  run_op-Holds (setting key value) m x h =
      let (y, runs, holds) = set-Holds key value m x h in
      (
        y,
        map_insert key value m,
        runs,
        holds,
        fun_ext (λ other. map_get-map_insert key value other m),
      )

  -- Any calls of get and set, one after the other, on a value that embeds an unborrowed map
  -- answer as the function from keys to values does that the map stands for, and leave the value
  -- embedding an unborrowed map that stands for the function after the calls.
  pub run_ops-answers :
      (ops : List Op) (m : Map Bytes) (x : Process S Contents)
      → Holds m x
      → (y : Process S Contents) × (n : Map Bytes) × (run_ops ops x
          ≡ done (ok (answers ops (view m)), y))
        × Holds n y
        × (view n ≡ afters ops (view m))
  run_ops-answers [] m x h = (x, m, refl, h, refl)
  run_ops-answers (op ∷ ops) m x h =
      let (y, n, runs, holds, seen) = run_op-Holds op m x h in
      let (z, l, rest, kept, seen') = run_ops-answers ops n y holds in
      (
        z,
        l,
        rw (runs, rest)
            (ap (λ (f : Spec Bytes). done (ok (answer op (view m) ∷ answers ops f), z)) seen),
        kept,
        seen' ∙ ap (afters ops) seen,
      )
