-- ===== src/Memory/Sweep.antt =====
-- Nothing leaks: when Emacs has discarded the objects, the boxes are free.
use emacs_module_rs.Base.{
  ◌≡◌, ◌≢◌, sym, ◌∙◌, ◌≤◌, Option, none, Option-cases, inl, inr, List, [], ◌∷◌, arith, refl,
}
use emacs_module_rs.Machine.{Raw, Address, Emacs}
use emacs_module_rs.Lifetime.Drop.{count}
use emacs_module_rs.Memory.{TypeId, ObjectId, done, Process, Platform, sweep}
use emacs_module_rs.Memory.Users.{MemoryLaws}
use emacs_module_rs.Memory.Owners.{Owns, Owns-removed}
use emacs_module_rs.Memory.Steps.{Reach, IsOwned, fin, owners}
use emacs_module_rs.Memory.Collecting.{collected, collect-IsOwned, Reach-IsOwned}

module _ {S C : Type 0} ⦃E : Emacs S⦄ {platform : Platform S C} {names : Raw → S → Option ObjectId}
    (laws : MemoryLaws platform names) where
  -- Each object that owns a box is in the list.
  abbrev pub Covers : List ObjectId → Process S C → Type 0
  Covers objects x =
      (object : ObjectId) (ty : TypeId) (p : Address)
      → Owns (fin laws) (owners laws x) object ty p
      → 1 ≤ count object objects

  Owns-collected :
      (object other : ObjectId) (ty : TypeId) (p : Address) (x : Process S C)
      → Owns (fin laws) (owners laws (collected platform object x)) other ty p
      → (object ≢ other) × Owns (fin laws) (owners laws x) other ty p
  Owns-collected object other ty p x own =
      Owns-removed (fin laws) (owners laws x) object other ty p
        (sym (laws.discard-users object x.world.emacs other) ∙ own)

  Covers-collected :
      (object : ObjectId) (rest : List ObjectId) (x : Process S C)
      → Covers (object ∷ rest) x
      → Covers rest (collected platform object x)
  unfolding count
  Covers-collected object rest x covers other ty p own =
      let (ne, old) = Owns-collected object other ty p x own in
      ground (arith, covers other ty p old, ne)

  sweep_owned :
      (objects : List ObjectId) (x : Process S C)
      → IsOwned platform x
      → Covers objects x
      → (y : Process S C) × (sweep platform objects x ≡ done y) × ((p : Address) → y.heap p ≡ none)
  unfolding sweep count
  sweep_owned [] x owned covers = (
    x,
    refl,
    λ p. elim (Option-cases (x.heap p)) [
      | inl free ↦ free
      | inr (b, held) ↦
          let (object, own) = owned.owner_of p b held in
          absurd (omega (arith, covers object b.type_id p own))
    ],
  )
  sweep_owned (object ∷ rest) x owned covers =
      let (freeing, left) = collect-IsOwned laws object x owned in
      let (y, runs, free) =
        sweep_owned rest (collected platform object x) left
          (Covers-collected object rest x covers) in
      (y, rw freeing runs, free)

  -- In any memory that the module, Lisp and the collector reach by their steps from one whose
  -- boxes each have one owner, collecting a list of objects that has each owner of a box ends
  -- without a fault, and leaves no box. Two types may have one finalizer. The platform follows
  -- MemoryLaws.
  pub Reach-sweep :
      {x y : Process S C}
      → Reach platform x y
      → IsOwned platform x
      → (objects : List ObjectId) → Covers objects y
      → (z : Process S C) × (sweep platform objects y ≡ done z) × ((p : Address) → z.heap p ≡ none)
  Reach-sweep r owned objects covers = sweep_owned objects _ (Reach-IsOwned laws r owned) covers
