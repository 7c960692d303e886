-- ===== src/Memory/Owners.antt =====
-- Each live box has one owner in Lisp, and each owner a live box with its finalizer: what adding, freeing
-- and assigning a box do to that, by the user pointers of the objects and the boxes of the heap.
use emacs_module_rs.Base.{◌≢◌, ◌≡◌, ◌==◌, if◌then◌else◌, Option, none, some, arith, ◌⊎◌}
use emacs_module_rs.Machine.{Address}
use emacs_module_rs.Memory.{TypeId, ObjectId, Embedded, Live, Heap, write}

-- The object is a user pointer of a type, to the box at an address.
abbrev pub Owns :
    (TypeId → Address) → (ObjectId → Option Embedded) → ObjectId → TypeId → Address → Type 0
Owns fin users object ty p = users object ≡ some (some (fin ty), p)

pub record Owned {C : Type 0} (fin : TypeId → Address) (users : ObjectId → Option Embedded)
    (heap : Heap C) : Type 0 where
  pub box_of :
      (object : ObjectId) (ty : TypeId) (p : Address)
      → Owns fin users object ty p
      → (b : Live C) × (heap p ≡ some b) × (fin b.type_id ≡ fin ty)
  pub one_owner :
      (object other : ObjectId) (ty ty' : TypeId) (p : Address)
      → Owns fin users object ty p
      → Owns fin users other ty' p
      → object ≡ other
  pub owner_of :
      (p : Address) (b : Live C)
      → heap p ≡ some b
      → (object : ObjectId) × Owns fin users object b.type_id p

abbrev pub added : ObjectId → Embedded → (ObjectId → Option Embedded) → ObjectId → Option Embedded
added made u users object = if made == object then some u else users object

abbrev pub removed : ObjectId → (ObjectId → Option Embedded) → ObjectId → Option Embedded
removed gone users object = if gone == object then none else users object

module _ (fin : TypeId → Address) (users : ObjectId → Option Embedded) where
  pub Owns-added :
      (made object : ObjectId) (ty ty' : TypeId) (p at : Address)
      → Owns fin (added made (some (fin ty), p) users) object ty' at
      → ((made ≡ object) × (p ≡ at) × (fin ty ≡ fin ty')) ⊎ Owns fin users object ty' at
  Owns-added made object ty ty' p at own = ground arith

  pub Owns-made :
      (made object : ObjectId) (u : Embedded) (ty : TypeId) (p : Address)
      → users made ≡ none
      → Owns fin users object ty p
      → Owns fin (added made u users) object ty p
  Owns-made made object u ty p new own = ground arith

  pub Owns-removed :
      (gone object : ObjectId) (ty : TypeId) (p : Address)
      → Owns fin (removed gone users) object ty p
      → (gone ≢ object) × Owns fin users object ty p
  Owns-removed gone object ty p own = ground arith

  pub Owns-kept :
      (gone object : ObjectId) (ty : TypeId) (p : Address)
      → gone ≢ object
      → Owns fin users object ty p
      → Owns fin (removed gone users) object ty p
  Owns-kept gone object ty p ne own = ground arith

module _ {C : Type 0} (heap : Heap C) (p at : Address) where
  pub write-at : (b : Option (Live C)) → write heap p b p ≡ b
  unfolding write
  write-at b = ground arith

  pub write-other : (b : Option (Live C)) → p ≢ at → write heap p b at ≡ heap at
  unfolding write
  write-other b ne = ground arith

  pub write-cases :
      (b : Option (Live C))
      → ((p ≡ at) × (write heap p b at ≡ b)) ⊎ ((p ≢ at) × (write heap p b at ≡ heap at))
  unfolding write
  write-cases b = ground arith
