-- ===== src/Convert/Integer/Overflow.antt =====
-- Arithmetic on `i64`: with overflow checks, as in a debug build, an overflow panics, and without it
-- wraps around.
use emacs_module_rs.Base.{◌*◌, ℤ, sub_ℕ, pos_part, neg_part, ◌+ℤ◌, ◌+◌, Bool, ◌++◌, if◌then◌else◌}
use emacs_module_rs.Machine.{Bytes, codes, static_str, Act, pure, panic}
use emacs_module_rs.Convert.Integer.{i64, in_range, as_type}

abbrev negated : ℤ → ℤ
negated x = sub_ℕ (neg_part x) (pos_part x)

abbrev pub times : ℤ → ℤ → ℤ
times x y =
    sub_ℕ (pos_part x * pos_part y + neg_part x * neg_part y)
      (pos_part x * neg_part y + neg_part x * pos_part y)

module _ {S : Type 0} (checks : Bool) where
  -- The result of an operation, if it fits.
  unfoldable pub fit_i64 : Bytes → ℤ → Act S ℤ
  unfolding in_range as_type
  fit_i64 verb x =
      if in_range i64 x
      then pure x
      else if checks
      then panic (static_str (codes "attempt to " ++ verb ++ codes " with overflow"))
      else pure (as_type i64 x)

  unfoldable pub add_i64 : ℤ → ℤ → Act S ℤ
  unfolding fit_i64 ◌+ℤ◌
  add_i64 x y = fit_i64 (codes "add") (x +ℤ y)

  unfoldable pub sub_i64 : ℤ → ℤ → Act S ℤ
  unfolding fit_i64 ◌+ℤ◌
  sub_i64 x y = fit_i64 (codes "subtract") (x +ℤ negated y)

  unfoldable pub mul_i64 : ℤ → ℤ → Act S ℤ
  unfolding fit_i64
  mul_i64 x y = fit_i64 (codes "multiply") (times x y)
