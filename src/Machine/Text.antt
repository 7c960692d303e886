-- ===== src/Machine/Text.antt =====
-- Rust's `str` as its bytes, and the parts of the standard library's text functions in use.
use Prim.Native.Char.{code}
use Prim.Native.String.{String}
use emacs_module_rs.Base.{
  ℕ, zero, suc, ◌+◌, ◌/◌, ◌%◌, ◌≡◌, refl, List, [], ◌∷◌, map, ltb, ◌==◌, if◌then◌else◌,
}

abbrev pub Bytes : Type 0
Bytes = List ℕ

-- The bytes of an ASCII literal.
abbrev pub codes : String → Bytes
codes String.[] = []
codes (String.◌∷◌ c s) = code c ∷ codes s

abbrev hyphen_of : ℕ → ℕ
hyphen_of c = if c == b'_' then b'-' else c

-- `s.replace("_", "-")`.
unfoldable pub lisp_name : Bytes → Bytes
lisp_name s = map hyphen_of s

-- The decimal digits of a `usize`, lowest first; twenty are enough for 64 bits.
digits : ℕ → ℕ → Bytes → Bytes
digits zero n tail = tail
digits (suc fuel) n tail =
    let rest = digits fuel (n / 10) ((b'0' + n % 10) ∷ tail) in
    if ltb n 10 then (b'0' + n) ∷ tail else rest

-- `{}` of a `usize`.
unfoldable pub decimal : ℕ → Bytes
unfolding digits
decimal n = digits 20 n []

decimal_test : decimal 2021 ≡ codes "2021"
unfolding decimal
decimal_test = refl
