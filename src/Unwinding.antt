-- ===== src/Unwinding.antt =====
-- Which operations cannot panic once the module is loaded: those that read only statics that are
-- set, and check exits by the documented statuses.
use emacs_module_rs.Base.{String, ◌≡◌, ◌<◌, refl, List, Option, none, some, arith}
use emacs_module_rs.Machine.{
  Bytes, Raw, Emacs, ExitLaws, World, Act, Outcome, ok, err, panicked, pure, fail, continue, ◌>>=◌,
  Error, Static,
}
use emacs_module_rs.Exit.{handle_exit, raw_call}
use emacs_module_rs.Exit.Laws.{handle_exit_outcome, result_of, Pending, quiet, signalled, thrown}
use emacs_module_rs.Value.{Value, protect, protect_in, raw_call_value_unprotected, raw_call_value}
use emacs_module_rs.Global.{get_cell, deref, bind, bind_static}
use emacs_module_rs.Call.{
  LispArgs, values_args, call_unprotected, call_value, call, call_static, list,
}
use emacs_module_rs.Statics.{list as list_subr}
use emacs_module_rs.Convert.Text.{str_into_lisp}
use emacs_module_rs.Signal.{signal_internal, signal_static}
use emacs_module_rs.Exit.{non_local_exit_signal}

abbrev pub IsFilled : Option Raw → Type 0
IsFilled none = ⊥
IsFilled (some _) = Unit

-- The statics of the crate, the thirteen of `Statics`, are set.
pub record IsLoaded {S : Type 0} (w : World S) : Type 0 where
  pub statics : (name : Static) → name < 13 → IsFilled (w.globals name)

abbrev pub NoPanic : {A : Type 0} → Outcome A → Type 0
NoPanic (ok _) = Unit
NoPanic (err _) = Unit
NoPanic (panicked _) = ⊥

pub record NeverPanics {S A : Type 0} (m : Act S A) : Type 0 where
  pub at : (w : World S) → IsLoaded w → NoPanic (m w).0 × IsLoaded (m w).1

module _ {S A : Type 0} where
  pub NeverPanics-pure : (a : A) → NeverPanics (pure {S = S} a)
  NeverPanics-pure a = record { at = λ w h. (tt, h) }

  pub NeverPanics-fail : (e : Error) → NeverPanics (fail {S = S} {A = A} e)
  NeverPanics-fail e = record { at = λ w h. (tt, h) }

module _ {S A B : Type 0} where
  NeverPanics-continue :
      (o : Outcome A) (f : A → Act S B) (w : World S)
      → ((a : A) → NeverPanics (f a))
      → NoPanic o
      → IsLoaded w
      → NoPanic (continue o f w).0 × IsLoaded (continue o f w).1
  NeverPanics-continue (ok a) f w kf n h = (kf a).at w h
  NeverPanics-continue (err e) f w kf n h = (tt, h)
  NeverPanics-continue (panicked p) f w kf n h = elim n [ ]

  pub NeverPanics-bind :
      (m : Act S A) (f : A → Act S B)
      → NeverPanics m
      → ((a : A) → NeverPanics (f a))
      → NeverPanics (m >>= f)
  NeverPanics-bind m f km kf = record {
    at = λ w h. let (n, h') = km.at w h in NeverPanics-continue (m w).0 f (m w).1 kf n h';
  }

module _ {S : Type 0} where
  NoPanic-get_cell :
      (message : String) (cell : Option Raw) (w : World S)
      → IsFilled cell
      → NoPanic (get_cell message cell w).0
  NoPanic-get_cell message none w h = elim h [ ]
  NoPanic-get_cell message (some raw) w h = tt

  pub get_cell-world :
      (message : String) (cell : Option Raw) (w : World S) → (get_cell message cell w).1 ≡ w
  get_cell-world message none w = refl
  get_cell-world message (some raw) w = refl

  pub NeverPanics-deref : (name : Static) → name < 13 → NeverPanics (deref {S = S} name)
  unfolding deref
  NeverPanics-deref name small = record {
    at = λ w h. (
      NoPanic-get_cell "Cannot access an uninitialized global reference" (w.globals name) w
          (h.statics name small),
      rw get_cell-world h,
    );
  }

  pub NeverPanics-bind_static : (name : Static) → name < 13 → NeverPanics (bind_static {S = S} name)
  unfolding bind_static
  NeverPanics-bind_static name small =
      NeverPanics-bind (deref name) (λ g. pure (bind g)) (NeverPanics-deref name small)
        (λ g. NeverPanics-pure (bind g))

module _ {S : Type 0} ⦃E : Emacs S⦄ where
  protect_in-IsLoaded :
      (roots : Option (List Raw)) (v : Value) (w : World S)
      → IsLoaded w
      → NoPanic (protect_in roots v w).0 × IsLoaded (protect_in roots v w).1
  protect_in-IsLoaded none v w h = (tt, h)
  protect_in-IsLoaded (some roots) v w h = (tt, record { statics = h.statics })

  pub NeverPanics-protect : (v : Value) → NeverPanics {S = S} (protect v)
  unfolding protect
  NeverPanics-protect v = record { at = λ w h. protect_in-IsLoaded w.protected v w h }

NoPanic-result_of : {A : Type 0} (p : Pending) (a : A) → NoPanic (result_of p a)
NoPanic-result_of quiet a = tt
NoPanic-result_of (signalled _ _) a = tt
NoPanic-result_of (thrown _ _) a = tt

module _ {S : Type 0} ⦃E : Emacs S⦄ (exits : ExitLaws S) where
  handle_exit-globals : {A : Type 0} (a : A) (w : World S) → (handle_exit a w).1.globals ≡ w.globals
  unfolding handle_exit
  handle_exit-globals a w = ground (arith, exits.status_known w.emacs)

  pub NeverPanics-raw_call : {A : Type 0} (f : S → A × S) → NeverPanics (raw_call f)
  unfolding raw_call
  NeverPanics-raw_call f = record {
    at = λ w h.
        let called = record w { emacs = (f w.emacs).1 } in
        (
          rw ((handle_exit_outcome exits (f w.emacs).0 called).0) (NoPanic-result_of _ _),
          record { statics = rw (handle_exit-globals (f w.emacs).0 called) h.statics },
        );
  }

ruleset calm_rules = (
  NeverPanics-pure, NeverPanics-fail, NeverPanics-bind, NeverPanics-bind_static, NeverPanics-deref,
  NeverPanics-protect, NeverPanics-raw_call,
)

module _ {S : Type 0} ⦃E : Emacs S⦄ (exits : ExitLaws S) where
  pub NeverPanics-call_value :
      (f : Value) (args : LispArgs S) → NeverPanics args → NeverPanics (call_value f args)
  unfolding call_value call_unprotected raw_call_value_unprotected
  NeverPanics-call_value f args h = search calm_rules depth 7

  pub NeverPanics-str : (s : Bytes) → NeverPanics {S = S} (str_into_lisp s)
  unfolding str_into_lisp raw_call_value raw_call_value_unprotected
  NeverPanics-str s = search calm_rules depth 7

  -- `Env::list` of values.
  pub NeverPanics-list : (vs : List Value) → NeverPanics {S = S} (list (values_args vs))
  unfolding list call_static call
  NeverPanics-list vs =
      NeverPanics-bind (bind_static list_subr) (λ f. call_value f (values_args vs))
        (NeverPanics-bind_static list_subr (omega arith))
        (λ f. NeverPanics-call_value f (values_args vs) (NeverPanics-pure _))

  NeverPanics-signal : (a b : Raw) → NeverPanics {S = S} (non_local_exit_signal a b)
  unfolding non_local_exit_signal
  NeverPanics-signal a b = record { at = λ w h. (tt, record { statics = h.statics }) }

  pub NeverPanics-signal_static :
      (name : Static) (text : Bytes) → name < 13 → NeverPanics {S = S} (signal_static name text)
  unfolding signal_static signal_internal
  NeverPanics-signal_static name text small =
      search (calm_rules, NeverPanics-str, NeverPanics-list, NeverPanics-signal) depth 8
