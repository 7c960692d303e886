-- ===== src/TestModule/State.antt =====
-- The effect of code that also reads and writes boxes on the Rust heap, and what the boxes of the
-- test module hold.
use emacs_module_rs.Base.{ℤ, Option, none, some, List}
use emacs_module_rs.Machine.{Bytes, Address, Emacs, Outcome, ok, err, panicked, Act}
use emacs_module_rs.Value.{Value}
use emacs_module_rs.UserPtr.{Transfer, into_ref, into_ref_mut, release}
use emacs_module_rs.Memory.{Live, live, write, Run, done, fault, Process}

-- `Vector { x, y }`, the `HashMap<String, String>` in a `RefCell` as its entries, the `i64` in a
-- `RefCell`, and `StringWrapper { s }`.
pub data Contents : Type 0 where
  vector : (x y : ℤ) → Contents
  map : List (Bytes × Bytes) → Contents
  integer : ℤ → Contents
  string_wrapper : Bytes → Contents

abbrev pub Cmd : Type 0 → Type 0 → Type 0
Cmd S A = Process S Contents → Run (Outcome A × Process S Contents)

module _ {S A : Type 0} where
  abbrev pub ret : A → Cmd S A
  ret a x = done (ok a, x)

  -- Code that leaves the boxes alone.
  abbrev pub in_world : Act S A → Cmd S A
  in_world m x = done ((m x.world).0, record x { world = (m x.world).1 })

  -- The guard of a `RefCell` is dropped however its scope is left.
  abbrev pub drop_guard :
      Address → Run (Outcome A × Process S Contents) → Run (Outcome A × Process S Contents)
  drop_guard cell fault = fault
  drop_guard cell (done (o, x)) = done (o, record x { world = release cell x.world })

  abbrev pub guarding : Address → Cmd S A → Cmd S A
  guarding cell m x = drop_guard cell (m x)

module _ {S A B : Type 0} where
  abbrev pub resume :
      Run (Outcome A × Process S Contents) → (A → Cmd S B) → Run (Outcome B × Process S Contents)
  resume fault f = fault
  resume (done (ok a, x)) f = f a x
  resume (done (err e, x)) f = done (err e, x)
  resume (done (panicked p, x)) f = done (panicked p, x)

  infixl 5 ◌>>=◌ ◌>>◌
  abbrev pub ◌>>=◌ : Cmd S A → (A → Cmd S B) → Cmd S B
  ◌>>=◌ m f x = resume (m x) f

  abbrev pub ◌>>◌ : Cmd S A → Cmd S B → Cmd S B
  m >> n = m >>= λ _. n

module _ {S : Type 0} where
  abbrev pub read : Option (Live Contents) → Cmd S Contents
  read none x = fault
  read (some b) x = done (ok b.content, x)

  -- What a reference points to.
  abbrev pub fetch : Address → Cmd S Contents
  fetch p x = read (x.heap p) x

  abbrev pub assign : Address → Contents → Option (Live Contents) → Cmd S (Unit {0})
  assign p c none x = fault
  assign p c (some b) x = done (ok tt, record x { heap = write x.heap p (some (live b.type_id c)) })

  abbrev pub store : Address → Contents → Cmd S (Unit {0})
  store p c x = assign p c (x.heap p) x

  -- A reference to one type that is read as another is a fault.
  abbrev pub as_vector : Contents → Cmd S (ℤ × ℤ)
  as_vector (vector x y) = ret (x, y)
  as_vector _ = λ x. fault

  abbrev pub as_map : Contents → Cmd S (List (Bytes × Bytes))
  as_map (map m) = ret m
  as_map _ = λ x. fault

  abbrev pub as_integer : Contents → Cmd S ℤ
  as_integer (integer i) = ret i
  as_integer _ = λ x. fault

module _ {S A : Type 0} ⦃E : Emacs S⦄ where
  -- The arguments `&T` and `&mut T` of a function, which its wrapper borrows from the `RefCell`
  -- that the value embeds.
  unfoldable pub with_ref : Transfer → Value → (Address → Cmd S A) → Cmd S A
  unfolding into_ref
  with_ref ty v body = do cell ← in_world (into_ref ty v); guarding cell (body cell)

  unfoldable pub with_ref_mut : Transfer → Value → (Address → Cmd S A) → Cmd S A
  unfolding into_ref_mut
  with_ref_mut ty v body = do cell ← in_world (into_ref_mut ty v); guarding cell (body cell)
