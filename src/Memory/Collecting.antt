-- ===== src/Memory/Collecting.antt =====
-- The collector on a memory whose boxes have one owner each: no finalizer faults.
use mathlib.Core.Path.{subst}
use emacs_module_rs.Base.{
  ◌≡◌, refl, sym, ◌∙◌, fun_ext, Option, none, some, arith, Bool-cases, inl, inr, ==_iff,
  if◌then◌else◌,
}
use emacs_module_rs.Machine.{Raw, Address, Emacs}
use emacs_module_rs.Memory.{
  TypeId, ObjectId, Embedded, Live, Heap, write, finalize, done, Process, Platform, collect_user,
  collect,
}
use emacs_module_rs.Memory.Users.{MemoryLaws}
use emacs_module_rs.Memory.Owners.{Owns, Owned, removed}
use emacs_module_rs.Memory.Owned.{Owned-assign, Owned-free, Owned-discard}
use emacs_module_rs.Memory.Steps.{
  Step, embeds, runs, assigns, collects, here, further, Reach, IsOwned, fin, owners, embed-IsOwned,
  discard-IsOwned,
}

pub done-injective : {A : Type 0} (a b : A) → done a ≡ done b → a ≡ b
done-injective a b e = cc

-- The boxes that are left when an object has been collected.
module _ {S C : Type 0} (platform : Platform S C) where
  abbrev freed_of : Option Address → Address → Heap C → Heap C
  freed_of none p heap = heap
  freed_of (some f) p heap = if platform.in_module f then write heap p none else heap

  abbrev pub freed : Option Embedded → Heap C → Heap C
  freed none heap = heap
  freed (some u) heap = freed_of u.0 u.1 heap

  -- The object is gone from Lisp, and its box from the heap.
  abbrev pub collected : ObjectId → Process S C → Process S C
  collected object x = record x {
    world = record x.world { emacs = platform.discard object x.world.emacs };
    heap = freed (platform.users object x.world.emacs) x.heap;
  }

module _ {S C : Type 0} ⦃E : Emacs S⦄ {platform : Platform S C} {names : Raw → S → Option ObjectId}
    (laws : MemoryLaws platform names) where
  finalize-live :
      (ty : TypeId) (p : Address) (heap : Heap C) (b : Live C)
      → heap p ≡ some b
      → b.type_id ≡ ty
      → finalize ty p heap ≡ done (write heap p none)
  unfolding finalize
  finalize-live ty p heap b held e = ground (arith, held, e)

  collect_user-Owned :
      (object : ObjectId) (x : Process S C)
      → IsOwned platform x
      → (u : Option Embedded) → platform.users object x.world.emacs ≡ u
      → (collect_user platform object u x
          ≡ done (record x {
            world = record x.world { emacs = platform.discard object x.world.emacs };
            heap = freed platform u x.heap;
          }))
        × Owned (fin laws) (removed object (owners laws x)) (freed platform u x.heap)
  collect_user-Owned object x owned none e =
      (refl, Owned-discard owned object (λ ty p own. ground (arith, own, e)))
  collect_user-Owned object x owned (some (none, p)) e =
      (refl, Owned-discard owned object (λ ty p own. ground (arith, own, e)))
  collect_user-Owned object x owned (some (some f, p)) e =
      elim (Bool-cases (platform.in_module f)) [
        | inl ours ↦
            let (ty, at) = laws.in_module_inv f ours in
            let own : Owns (fin laws) (owners laws x) object ty p = rw (← at) e in
            let (b, held, is) = owned.box_of object ty p own in
            let same : fin laws b.type_id ≡ f = is ∙ sym at in
            (
              rw (ours, held, (==_iff _ f).1 same, finalize-live b.type_id p x.heap b held refl)
                  refl,
              rw ours (Owned-free owned object ty p own),
            )
        | inr other ↦ (
          rw other refl,
          rw other (
              Owned-discard owned object
                (λ ty q own. ground (arith, own, e, other, laws.in_module-finalize ty))),
        )
      ]

  pub collect-IsOwned :
      (object : ObjectId) (x : Process S C)
      → IsOwned platform x
      → (collect platform object x ≡ done (collected platform object x))
        × IsOwned platform (collected platform object x)
  unfolding collect
  collect-IsOwned object x owned =
      let u = platform.users object x.world.emacs in
      let (freeing, left) = collect_user-Owned object x owned u refl in
      (freeing, discard-IsOwned laws object x (freed platform u x.heap) left)

  Step-IsOwned : (x y : Process S C) → Step platform x y → IsOwned platform x → IsOwned platform y
  Step-IsOwned x _ (embeds ty c q free) owned = embed-IsOwned laws ty c x q free owned
  Step-IsOwned x _ (runs w same) owned =
      subst (λ (u : ObjectId → Option Embedded). Owned (fin laws) u x.heap) (sym (fun_ext same))
        owned
  Step-IsOwned x _ (assigns p b c held) owned = Owned-assign owned p b c held
  Step-IsOwned x _ (collects object y e) owned =
      let (freeing, left) = collect-IsOwned object x owned in
      subst (IsOwned platform) (done-injective (collected platform object x) y (sym freeing ∙ e))
        left

  -- In any memory that the module, Lisp and the collector reach by their steps from one whose
  -- boxes each have one owner, each live box is owned by one user pointer with the finalizer of
  -- its type, and by no other, and each user pointer with a finalizer of a type owns a live box
  -- of a type that has this finalizer. Two types may have one finalizer. The platform follows
  -- MemoryLaws.
  pub Reach-IsOwned :
      {x y : Process S C} → Reach platform x y → IsOwned platform x → IsOwned platform y
  Reach-IsOwned here owned = owned
  Reach-IsOwned (further r step) owned = Step-IsOwned _ _ step (Reach-IsOwned r owned)

  -- In any memory that the module, Lisp and the collector reach by their steps from one whose
  -- boxes each have one owner, the collection of an object does not fault: the object goes, and
  -- its box with it if it is a user pointer with a finalizer of the module, and nothing else.
  -- Two types may have one finalizer. The platform follows MemoryLaws.
  pub Reach-collect :
      {x y : Process S C}
      → Reach platform x y
      → IsOwned platform x
      → (object : ObjectId) → collect platform object y ≡ done (collected platform object y)
  Reach-collect r owned object = (collect-IsOwned object _ (Reach-IsOwned r owned)).0
