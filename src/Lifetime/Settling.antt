-- ===== src/Lifetime/Settling.antt =====
-- The operations that settle: each protects what it makes, by the functions that Emacs gives.
pub mod Calls
use emacs_module_rs.Base.{String, ℤ, ℕ, List, Option, none, some}
use emacs_module_rs.Machine.{Bytes, Raw, Address, Emacs, ExitLaws, RefLaws, Static}
use emacs_module_rs.Value.{Value}
use emacs_module_rs.Global.{get_cell, deref, bind_static}
use emacs_module_rs.Call.{LispArgs, call_unprotected, call_value, call, call_static, list}
use emacs_module_rs.Convert.Text.{str_into_lisp}
use emacs_module_rs.Statics.{list as list_subr}
use emacs_module_rs.Lifetime.Balance.{
  Balances, Settles, KeepsRefs, Settles-pure, Settles-fail, Settles-panic, Settles-gets,
  Settles-attempt, Settles-bind, Settles-raw_call, Settles-protect, Settles-raw_call_value,
}

-- Emacs keeps the references in the calls by which values are made, and the Lisp functions that are
-- called keep them too.
pub record KeepingCalls {S : Type 0} ⦃E : Emacs S⦄ (refs : Raw → S → ℕ) : Type 0 where
  pub funcall : (f : Raw) (args : List Raw) → KeepsRefs refs (E.funcall f args)
  pub make_string : (s : Bytes) → KeepsRefs refs (E.make_string s)
  pub intern : (s : Bytes) → KeepsRefs refs (E.intern s)
  pub make_function :
      (min max : ℤ) (f : Address) (doc : Bytes) (details : Address)
      → KeepsRefs refs (E.make_function min max f doc details)
  pub get_user_finalizer : (v : Raw) → KeepsRefs refs (E.get_user_finalizer v)
  pub get_user_ptr : (v : Raw) → KeepsRefs refs (E.get_user_ptr v)

pub ruleset settle_rules = (
  Settles-pure, Settles-fail, Settles-panic, Settles-gets, Settles-attempt, Settles-bind,
  Settles-raw_call, Settles-protect, Settles-raw_call_value,
)

module _ {S : Type 0} ⦃E : Emacs S⦄ {refs : Raw → S → ℕ} where
  Settles-get_cell : (m : String) (cell : Option Raw) → Settles refs (get_cell m cell)
  Settles-get_cell m none = search settle_rules
  Settles-get_cell m (some raw) = search settle_rules

  pub Settles-deref : (name : Static) → Settles refs (deref name)
  unfolding deref
  Settles-deref name = search (settle_rules, Settles-get_cell)

  pub Settles-bind_static : (name : Static) → Settles refs (bind_static name)
  unfolding bind_static
  Settles-bind_static name = search (settle_rules, Settles-get_cell)

module _ {S : Type 0} ⦃E : Emacs S⦄ {refs : Raw → S → ℕ} (exits : ExitLaws S)
    (laws : RefLaws S refs) (calls : KeepingCalls refs) where
  pub Settles-str : (s : Bytes) → Settles refs (str_into_lisp s)
  unfolding str_into_lisp
  Settles-str s = search (settle_rules, calls.make_string)

  pub Settles-call_value :
      (f : Value) (args : LispArgs S) → Settles refs args → Settles refs (call_value f args)
  unfolding call_value call_unprotected
  Settles-call_value f args h = search (settle_rules, calls.funcall)

  pub Settles-call_static :
      (name : Static) (args : LispArgs S) → Settles refs args → Settles refs (call_static name args)
  unfolding call_static call
  Settles-call_static name args h =
      Settles-bind (bind_static name) (λ f. call_value f args) (Settles-bind_static name)
        (λ f. Settles-call_value f args h)

  pub Settles-list : (args : LispArgs S) → Settles refs args → Settles refs (list args)
  unfolding list
  Settles-list args h = Settles-call_static list_subr args h
