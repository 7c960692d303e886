-- ===== src/Memory.antt =====
-- Boxes on the Rust heap and their owners in Lisp (src/types/user_ptr.rs): a value is moved into a
-- box, the box is given to Lisp as a user pointer, and the finalizer of its type frees it.
pub mod Users
pub mod Owners
pub mod Owned
pub mod Steps
pub mod Collecting
pub mod Sweep
pub mod Reading
use emacs_module_rs.Base.{ℕ, Bool, Option, none, some, List, [], ◌∷◌, ◌==◌, if◌then◌else◌}
use emacs_module_rs.Machine.{Address, Emacs, World, Outcome}
use emacs_module_rs.Value.{Value}
use emacs_module_rs.UserPtr.{Transfer, box_into_lisp}

-- `std::any::TypeId` of a type that is `Transfer`.
abbrev pub TypeId : Type 0
TypeId = ℕ

-- An object of the Lisp heap.
abbrev pub ObjectId : Type 0
ObjectId = ℕ

-- The finalizer, if there is one, and the pointer of a user pointer.
abbrev pub Embedded : Type 0
Embedded = Option Address × Address

-- A live box: the type that it was made for, and what it holds.
pub record Live (C : Type 0) : Type 0 where
  pub type_id : TypeId
  pub content : C

abbrev pub live : {C : Type 0} → TypeId → C → Live C
live ty c = record { type_id = ty; content = c }

-- The boxes of the Rust heap, by address.
abbrev pub Heap : Type 0 → Type 0
Heap C = Address → Option (Live C)

-- What is undefined behaviour in Rust is a fault.
pub data Run (A : Type 0) : Type 0 where
  done : A → Run A
  fault : Run A

module _ {A B : Type 0} where
  infixl 5 ◌>>>◌
  abbrev pub ◌>>>◌ : Run A → (A → Run B) → Run B
  done a >>> f = f a
  fault >>> f = fault

module _ {C : Type 0} where
  unfoldable pub write : Heap C → Address → Option (Live C) → Heap C
  write heap p b at = if p == at then b else heap at

  abbrev pub free_as : TypeId → Address → Heap C → Option (Live C) → Run (Heap C)
  free_as ty ptr heap none = fault
  free_as ty ptr heap (some b) = if b.type_id == ty then done (write heap ptr none) else fault

  -- `finalize::<T>`: `Box::from_raw` is undefined on a pointer that is no live box of the type.
  unfoldable pub finalize : TypeId → Address → Heap C → Run (Heap C)
  unfolding write
  finalize ty ptr heap = free_as ty ptr heap (heap ptr)

-- The module's memory beside the state of the process.
pub record Process (S C : Type 0) : Type 0 where
  pub world : World S
  pub heap : Heap C

-- What the compiler, the allocator and the collector of Emacs decide: the name and the finalizer of
-- each type, whether the function at an address is a finalizer of the module, where a box is put,
-- the user pointer that an object is, and the Lisp heap without an object. The compiler may give
-- two types one finalizer.
pub record Platform (S C : Type 0) : Type 0 where
  pub transfer : TypeId → Transfer
  pub in_module : Address → Bool
  pub allocate : Heap C → Address
  pub users : ObjectId → S → Option Embedded
  pub discard : ObjectId → S → S

module _ {S C : Type 0} (platform : Platform S C) where
  -- `Box::new(self)`
  unfoldable pub box_new : TypeId → C → Process S C → Address × Process S C
  unfolding write
  box_new ty c x =
      let p = platform.allocate x.heap in (p, record x { heap = write x.heap p (some (live ty c)) })

  -- The finalizer of the module at an address is `finalize::<T>` of each type `T` that has it: on a
  -- box of one of them it is that of the box's type, and on anything else it is undefined.
  abbrev call_finalizer : Address → Address → Heap C → Option (Live C) → Run (Heap C)
  call_finalizer fin ptr heap none = fault
  call_finalizer fin ptr heap (some b) =
      if (platform.transfer b.type_id).finalize == fin then finalize b.type_id ptr heap else fault

  -- Emacs discards an object.
  abbrev pub discarded : ObjectId → Process S C → Process S C
  discarded object x = record x {
    world = record x.world { emacs = platform.discard object x.world.emacs };
  }

  -- A user pointer without a finalizer, or with one of another module, frees no box of this one.
  abbrev pub run_finalizer : Option Address → Address → Heap C → Run (Heap C)
  run_finalizer none ptr heap = done heap
  run_finalizer (some fin) ptr heap =
      if platform.in_module fin then call_finalizer fin ptr heap (heap ptr) else done heap

  abbrev pub collect_user : ObjectId → Option Embedded → Process S C → Run (Process S C)
  collect_user object none x = done (discarded object x)
  collect_user object (some u) x =
      run_finalizer u.0 u.1 x.heap >>> λ heap. done (record (discarded object x) { heap = heap })

  -- The collector finds an object to be garbage: it calls the finalizer of a user pointer, which is
  -- a function of the module or of another, and discards the object.
  unfoldable pub collect : ObjectId → Process S C → Run (Process S C)
  unfolding finalize
  collect object x = collect_user object (platform.users object x.world.emacs) x

  -- The collections of several objects.
  unfoldable pub sweep : List ObjectId → Process S C → Run (Process S C)
  unfolding collect
  sweep [] x = done x
  sweep (object ∷ rest) x = collect object x >>> sweep rest

module _ {S C : Type 0} ⦃E : Emacs S⦄ (platform : Platform S C) where
  -- `IntoLisp` of a value that `enable_transfers!` is used for: `Box::new(self).into_lisp(env)`
  unfoldable pub embed : TypeId → C → Process S C → Outcome Value × Process S C
  unfolding box_new box_into_lisp
  embed ty c x =
      let (p, x1) = box_new platform ty c x in
      let (o, w) = box_into_lisp (platform.transfer ty) p x1.world in (o, record x1 { world = w })
