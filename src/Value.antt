-- ===== src/Value.antt =====
-- Lisp values and their protection (src/value.rs), the value-returning raw calls (src/macros.rs),
-- and the methods of `Env` that are one raw call (src/env.rs).
use emacs_module_rs.Base.{
  ℕ, ◌+◌, Bool, Option, none, some, List, [], ◌∷◌, ◌++◌, ◌==◌, if◌then◌else◌,
}
use emacs_module_rs.Machine.{
  Bytes, Raw, Emacs, TempValue, nul_error, Act, ok, pure, fail, gets, ◌>>=◌, ◌>>◌,
}
use emacs_module_rs.Exit.{raw_call_no_exit, raw_read, raw_call}

-- The field `env` is left out: it is always the current one, the `World`.
pub record Value : Type 0 where
  pub raw : Raw

abbrev pub value : Raw → Value
value raw = record { raw = raw }

-- The place of the first zero byte.
pub find_nul : ℕ → Bytes → Option ℕ
find_nul at [] = none
find_nul at (c ∷ rest) = if c == 0 then some at else find_nul (at + 1) rest

unfoldable pub cstring_or : Bytes → Option ℕ → {S : Type 0} → Act S Bytes
cstring_or s none = pure s
cstring_or s (some at) = fail (nul_error at)

-- `CString::new(s)?`
unfoldable pub cstring : {S : Type 0} → Bytes → Act S Bytes
unfolding find_nul cstring_or
cstring s = cstring_or s (find_nul 0 s)

module _ {S : Type 0} ⦃E : Emacs S⦄ where
  -- `protected.borrow_mut().push(root)`
  abbrev pub push_root : List Raw → Raw → Act S (Unit {0})
  push_root roots root w = (ok tt, record w { protected = some (roots ++ root ∷ []) })

  abbrev pub protect_in : Option (List Raw) → Value → Act S Value
  protect_in none v = pure v
  protect_in (some roots) v = do
    root ← raw_call_no_exit (E.make_global_ref v.raw)
    push_root roots root
    pure v

  unfoldable pub protect : Value → Act S Value
  protect v = do roots ← gets (λ w. w.protected); protect_in roots v

  -- `unsafe_raw_call_value_unprotected!`
  unfoldable pub raw_call_value_unprotected : (S → Raw × S) → Act S Value
  unfolding raw_call
  raw_call_value_unprotected f = do raw ← raw_call f; pure (value raw)

  -- `unsafe_raw_call_value!`
  unfoldable pub raw_call_value : (S → Raw × S) → Act S Value
  unfolding raw_call_value_unprotected protect
  raw_call_value f = do v ← raw_call_value_unprotected f; protect v

  unfoldable pub is_not_nil : Value → Act S Bool
  is_not_nil v = raw_read (E.is_not_nil v.raw)

  unfoldable pub eq : Value → Value → Act S Bool
  eq a b = raw_read (E.eq a.raw b.raw)

  -- `Env::is_not_nil` and `Env::eq`, which are deprecated.
  abbrev pub env_is_not_nil : Value → Act S Bool
  env_is_not_nil v = raw_read (E.is_not_nil v.raw)

  abbrev pub env_eq : Value → Value → Act S Bool
  env_eq a b = raw_read (E.eq a.raw b.raw)

  -- `TempValue::value`
  unfoldable pub temp_value_value : TempValue → Act S Value
  unfolding protect
  temp_value_value t = protect (value t.raw)

  -- `Env::intern`
  unfoldable pub intern : Bytes → Act S Value
  unfolding cstring raw_call_value
  intern name = do s ← cstring name; raw_call_value (E.intern s)

  -- `Env::type_of`
  unfoldable pub type_of : Value → Act S Value
  unfolding raw_call_value
  type_of v = raw_call_value (E.type_of v.raw)
