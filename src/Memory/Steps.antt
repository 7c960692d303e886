-- ===== src/Memory/Steps.antt =====
-- What the module, Lisp and the collector of Emacs do to the memory in turn: no order of their steps
-- leaves a box without an owner, or with two.
use mathlib.Core.Path.{subst}
use emacs_module_rs.Base.{◌≡◌, sym, fun_ext, Option, none, some}
use emacs_module_rs.Machine.{Raw, Address, Emacs, IsQuiet, World}
use emacs_module_rs.Memory.{
  TypeId, ObjectId, Embedded, Live, live, Heap, write, done, Process, Platform, box_new, embed,
  collect,
}
use emacs_module_rs.Memory.Users.{MemoryLaws, users-embed}
use emacs_module_rs.Memory.Owners.{Owned, removed}
use emacs_module_rs.Memory.Owned.{Owned-add}

module _ {S C : Type 0} ⦃E : Emacs S⦄ (platform : Platform S C) where
  -- A value is embedded while no exit is pending, in a box that is not live before; anything runs
  -- that neither makes nor discards a user pointer; a box is assigned to, through a reference; the
  -- collector discards an object.
  pub data Step (x : Process S C) : Process S C → Type 0 where
    embeds :
        (ty : TypeId) (c : C)
        → IsQuiet x.world.emacs
        → x.heap (platform.allocate x.heap) ≡ none
        → Step x (embed platform ty c x).1
    runs :
        (w : World S)
        → ((object : ObjectId)
            → platform.users object w.emacs ≡ platform.users object x.world.emacs)
        → Step x (record x { world = w })
    assigns :
        (p : Address) (b : Live C) (c : C)
        → x.heap p ≡ some b
        → Step x (record x { heap = write x.heap p (some (live b.type_id c)) })
    collects : (object : ObjectId) (y : Process S C) → collect platform object x ≡ done y → Step x y

  pub data Reach (x : Process S C) : Process S C → Type 0 where
    here : Reach x x
    further : {y z : Process S C} → Reach x y → Step y z → Reach x z

  -- Each box that is live has one owner, and each owner has a live box that its finalizer is for.
  abbrev pub IsOwned : Process S C → Type 0
  IsOwned x =
      Owned (λ ty. (platform.transfer ty).finalize) (λ object. platform.users object x.world.emacs)
        x.heap

module _ {S C : Type 0} ⦃E : Emacs S⦄ {platform : Platform S C} {names : Raw → S → Option ObjectId}
    (laws : MemoryLaws platform names) where
  abbrev pub fin : TypeId → Address
  fin ty = (platform.transfer ty).finalize

  abbrev pub owners : Process S C → ObjectId → Option Embedded
  owners x object = platform.users object x.world.emacs

  pub embed-IsOwned :
      (ty : TypeId) (c : C) (x : Process S C)
      → IsQuiet x.world.emacs
      → x.heap (platform.allocate x.heap) ≡ none
      → IsOwned platform x
      → IsOwned platform (embed platform ty c x).1
  unfolding embed box_new
  embed-IsOwned ty c x q free owned =
      let (made, new, users) = users-embed laws ty c x q in
      let p = platform.allocate x.heap in
      subst (λ (u : ObjectId → Option Embedded). Owned fin u (write x.heap p (some (live ty c))))
        (sym (fun_ext users)) (Owned-add owned made ty p c new free)

  pub discard-IsOwned :
      (object : ObjectId) (x : Process S C) (heap : Heap C)
      → Owned fin (removed object (owners x)) heap
      → Owned fin (λ other. platform.users other (platform.discard object x.world.emacs)) heap
  discard-IsOwned object x heap =
      subst (λ (u : ObjectId → Option Embedded). Owned fin u heap)
        (sym (fun_ext (laws.discard-users object x.world.emacs)))
