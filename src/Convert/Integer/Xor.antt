-- ===== src/Convert/Integer/Xor.antt =====
-- `^` on `i64`: the exclusive or of the bits.
use native.Mathlib.Nat.{pow-suc}
use emacs_module_rs.Base.{
  ℕ, zero, suc, ◌+◌, ◌*◌, ◌/◌, ◌%◌, ◌^◌, ◌<◌, ℤ, pos, negsuc, ◌≡◌, refl, arith,
}
use emacs_module_rs.Convert.Integer.{i64, InRange, low_bits, as_type}

-- Of the lowest bits of two numbers.
pub xor_bits : ℕ → ℕ → ℕ → ℕ
xor_bits zero a b = 0
xor_bits (suc n) a b = (a + b) % 2 + 2 * xor_bits n (a / 2) (b / 2)

unfoldable pub xor_i64 : ℤ → ℤ → ℤ
unfolding xor_bits as_type
xor_i64 x y = as_type i64 (pos (xor_bits 64 (low_bits 64 x) (low_bits 64 y)))

xor_test : xor_i64 (pos 12) (negsuc 9) ≡ negsuc 5
unfolding xor_i64 xor_bits as_type
xor_test = refl

xor_bits-lt : (n a b : ℕ) → xor_bits n a b < 2 ^ n
unfolding xor_bits
xor_bits-lt zero a b = omega arith
xor_bits-lt (suc n) a b = omega (arith, xor_bits-lt n (a / 2) (b / 2), pow-suc 2 n)

xor_bits_comm : (n a b : ℕ) → xor_bits n a b ≡ xor_bits n b a
unfolding xor_bits
xor_bits_comm zero a b = refl
xor_bits_comm (suc n) a b = omega (arith, xor_bits_comm n (a / 2) (b / 2))

xor_bits-cancel : (n a b : ℕ) → a < 2 ^ n → xor_bits n (xor_bits n a b) b ≡ a
unfolding xor_bits
xor_bits-cancel zero a b h = omega arith
xor_bits-cancel (suc n) a b h =
    let rest = xor_bits n (a / 2) (b / 2) in
    let half : ((a + b) % 2 + 2 * rest) / 2 ≡ rest = omega arith in
    rw half (omega (arith, xor_bits-cancel n (a / 2) (b / 2) (omega (arith, pow-suc 2 n))))

low_bits-lt : (x : ℤ) → InRange i64 x → low_bits 64 x < 2 ^ 64
low_bits-lt x h = ground arith

low_bits-as_type : (n : ℕ) → n < 2 ^ 64 → low_bits 64 (as_type i64 (pos n)) ≡ n
unfolding as_type
low_bits-as_type n h = ground arith

as_type-low_bits : (x : ℤ) → InRange i64 x → as_type i64 (pos (low_bits 64 x)) ≡ x
unfolding as_type
as_type-low_bits (pos n) h = ground arith
as_type-low_bits (negsuc n) h = ground arith

module _ (x y : ℤ) (rx : InRange i64 x) (ry : InRange i64 y) where
  abbrev X : ℕ
  X = low_bits 64 x

  abbrev Y : ℕ
  Y = low_bits 64 y

  bits : low_bits 64 (xor_i64 x y) ≡ xor_bits 64 X Y
  unfolding xor_i64
  bits = low_bits-as_type (xor_bits 64 X Y) (xor_bits-lt 64 X Y)

  -- What is xored twice comes back, from either side.
  pub xor_i64-right : xor_i64 y (xor_i64 x y) ≡ x
  unfolding xor_i64
  xor_i64-right =
      rw (bits, xor_bits_comm 64 Y (xor_bits 64 X Y), xor_bits-cancel 64 X Y (low_bits-lt x rx))
        (as_type-low_bits x rx)

  pub xor_i64-left : xor_i64 (xor_i64 x y) x ≡ y
  unfolding xor_i64
  xor_i64-left =
      rw (bits, xor_bits_comm 64 X Y, xor_bits-cancel 64 Y X (low_bits-lt y ry))
        (as_type-low_bits y ry)
