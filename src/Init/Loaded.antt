-- ===== src/Init/Loaded.antt =====
-- The crate's own global references (src/symbol.rs, src/subr.rs), and that loading sets them.
use emacs_module_rs.Base.{
  String, ℕ, zero, suc, ◌<◌, ◌≡◌, sym, inl, inr, ◌⊎◌, List, [], ◌∷◌, ◌++◌, arith,
}
use emacs_module_rs.Machine.{Bytes, codes, Emacs, ExitLaws, Static, World, ok}
use emacs_module_rs.Statics.{
  nil, t, error, rust_error, rust_panic, rust_wrong_type_user_ptr, cons, car, cdr, vector,
  make_vector, list, message,
}
use emacs_module_rs.Names.{ident_lisp_name}
use emacs_module_rs.Unwinding.{IsFilled, IsLoaded}
use emacs_module_rs.Init.{InitFn, run_all, init_to_symbol, init_to_function, init_refs}
use emacs_module_rs.Init.Sets.{
  AllFilled, Sets-bind, Sets-pure, Sets-init_to_symbol, Sets-init_to_function, Sets-init_refs,
  names_of,
}

abbrev named : Static → String → Static × Bytes
named name ident = (name, ident_lisp_name (codes ident))

-- `use_symbols!` of src/symbol.rs and `global_refs!` of src/subr.rs.
abbrev pub crate_symbols : List (Static × Bytes)
crate_symbols =
    named nil "nil"
    ∷ named t "t"
    ∷ named error "error"
    ∷ named rust_error "rust_error"
    ∷ named rust_panic "rust_panic"
    ∷ named rust_wrong_type_user_ptr "rust_wrong_type_user_ptr"
    ∷ []

abbrev pub crate_subrs : List (Static × Bytes)
crate_subrs =
    named cons "cons"
    ∷ named car "car"
    ∷ named cdr "cdr"
    ∷ named vector "vector"
    ∷ named make_vector "make_vector"
    ∷ named list "list"
    ∷ named message "message"
    ∷ []

-- A property of the numbers below a bound.
abbrev AllUpto : (ℕ → Type 0) → ℕ → Type 0
AllUpto P zero = Unit
AllUpto P (suc n) = AllUpto P n × P n

lt_suc_cases : (k n : ℕ) → k < suc n → (k < n) ⊎ (n ≡ k)
lt_suc_cases k n h = ground arith

at_upto : (P : ℕ → Type 0) (n k : ℕ) → k < n → AllUpto P n → P k
at_upto P zero k h all = absurd (omega arith)
at_upto P (suc n) k h (all, p) = elim (lt_suc_cases k n h) [
  | inl less ↦ at_upto P n k less all
  | inr e ↦ rw (sym e) p
]

-- The statics are the thirteen of the two lists.
pub crate-IsLoaded :
    {S : Type 0} (w : World S)
    → AllFilled (names_of crate_subrs ++ names_of crate_symbols ++ []) w
    → IsLoaded w
crate-IsLoaded w (co, (ca, (cd, (ve, (mv, (li, (me, (ni, (tru, (er, (re, (rp, (ru, _))))))))))))) =
    record {
      statics = λ name h.
          at_upto (λ n. IsFilled (w.globals n)) 13 name h
            (((((((((((((tt, ni), tru), er), re), rp), ru), co), ca), cd), ve), mv), li), me);
    }

module _ {S : Type 0} ⦃E : Emacs S⦄ where
  -- The initializers that the crate registers.
  abbrev pub crate_refs : List (InitFn S)
  crate_refs = init_refs init_to_function crate_subrs ∷ init_refs init_to_symbol crate_symbols ∷ []

module _ {S : Type 0} ⦃E : Emacs S⦄ (exits : ExitLaws S) where
  -- If the initializers that the crate registers end without an error, every static of the crate
  -- is set, as handle_call needs. Emacs follows ExitLaws.
  pub run_all-IsLoaded :
      (w : World S) → (run_all crate_refs w).0 ≡ ok tt → IsLoaded (run_all crate_refs w).1
  unfolding run_all
  run_all-IsLoaded w e =
      let subrs = Sets-init_refs exits init_to_function (Sets-init_to_function exits) crate_subrs in
      let symbols = Sets-init_refs exits init_to_symbol (Sets-init_to_symbol exits) crate_symbols in
      let both = Sets-bind _ _ subrs (λ u. Sets-bind _ _ symbols (λ u'. Sets-pure tt)) in
      crate-IsLoaded (run_all crate_refs w).1 (both.sets w tt e)
