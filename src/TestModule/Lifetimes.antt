-- ===== src/TestModule/Lifetimes.antt =====
-- Values that are made, collected around, and used (test-module/src/test_lifetime.rs).
pub mod Protected
pub mod Collected
use emacs_module_rs.Base.{ℕ, zero, suc, pos, List, [], ◌∷◌, ◌++◌}
use emacs_module_rs.Machine.{
  Bytes, codes, Emacs, signal as signal_kind, kind, string, Act, pure, fail, panic, ◌>>=◌, ◌>>◌,
  Result, success, failure, attempt,
}
use emacs_module_rs.Value.{Value, intern, temp_value_value}
use emacs_module_rs.Call.{values_args, tuple_args, call_name, list}
use emacs_module_rs.Convert.{float_into_lisp}
use emacs_module_rs.Convert.Integer.{i32, int_into_lisp}
use emacs_module_rs.Convert.Text.{str_into_lisp}
use emacs_module_rs.Lifetime.{free_last_protected}

module _ {S : Type 0} ⦃E : Emacs S⦄ where
  unfoldable pub gc : Act S Value
  unfolding call_name
  gc = call_name (codes "garbage-collect") (values_args [])

  unfoldable pub print : Value → Act S Value
  unfolding call_name
  print v = call_name (codes "print") (values_args (v ∷ []))

  unfoldable pub create : ℕ → Act S Value → Act S (List Value)
  create zero creating = pure []
  create (suc count) creating = do x ← creating; v ← create count creating; pure (x ∷ v)

  -- From the last value to the first. The line that is printed for each is left out.
  unfoldable pub use_back : (Value → Act S Value) → List Value → Act S (Unit {0})
  use_back using [] = pure tt
  use_back using (x ∷ rest) = do use_back using rest; using x; pure tt

  -- `v[0]`
  abbrev pub first_or_panic : List Value → Act S Value
  first_or_panic [] = panic (string (codes "index out of bounds: the len is 0 but the index is 0"))
  first_or_panic (x ∷ _) = pure x

  unfoldable pub create_collect_use : ℕ → Act S Value → (Value → Act S Value) → Act S Value
  unfolding create gc use_back
  create_collect_use count creating using = do
    v ← create count creating
    gc
    use_back using v
    first_or_panic v

  unfoldable pub gc_after_new_string : Act S Value
  unfolding create_collect_use str_into_lisp print
  gc_after_new_string = create_collect_use 2 (str_into_lisp (codes "0")) print

  unfoldable pub gc_after_new_int : Act S Value
  unfolding create_collect_use int_into_lisp print
  gc_after_new_int = create_collect_use 2 (int_into_lisp i32 (pos 5)) print

  -- Of the bits of 5.8.
  unfoldable pub gc_after_new_float : ℕ → Act S Value
  unfolding create_collect_use float_into_lisp print
  gc_after_new_float bits = create_collect_use 2 (float_into_lisp bits) print

  -- A symbol that is made, and taken out of the table of symbols.
  abbrev pub uninterned : Act S Value
  uninterned = do
    x ← intern (codes "xyz")
    call_name (codes "unintern") (values_args (x ∷ []))
    pure x

  unfoldable pub gc_after_uninterning : Act S Value
  unfolding create_collect_use intern call_name print
  gc_after_uninterning = create_collect_use 3 uninterned print

  unfoldable pub gc_after_retrieving : Bytes → Act S Value
  unfolding create_collect_use call_name print tuple_args str_into_lisp
  gc_after_retrieving module_prefix =
      create_collect_use 2 (call_name (module_prefix ++ codes "hash-map-make") (values_args []))
        (λ v. do
          print v
          call_name (module_prefix ++ codes "hash-map-set")
              (tuple_args (pure v ∷ str_into_lisp (codes "x") ∷ str_into_lisp (codes "y") ∷ [])))

  abbrev details_of : Result Value → Act S Value
  details_of (success v) = pure v
  details_of (failure (kind (signal_kind _ details))) = temp_value_value details
  details_of (failure e) = fail e

  unfoldable pub gc_after_catching_1 : Value → Act S Value
  unfolding create_collect_use call_name temp_value_value print
  gc_after_catching_1 f =
      create_collect_use 2
        (do r ← attempt (call_name (codes "funcall") (values_args (f ∷ []))); details_of r) print

  -- The lines that are printed are left out.
  unfoldable pub trigger_double_free_global_ref : Value → Act S (Unit {0})
  unfolding list tuple_args int_into_lisp free_last_protected gc call_name
  trigger_double_free_global_ref func = do
    list (tuple_args (int_into_lisp i32 (pos 1) ∷ int_into_lisp i32 (pos 2) ∷ []))
    free_last_protected
    gc
    call_name (codes "funcall") (values_args (func ∷ []))
    pure tt
