-- ===== src/Maps.antt =====
-- The `HashMap` of Rust's standard library with texts as its keys: the list of its entries, of which
-- no two have the same key.
pub mod View
use emacs_module_rs.Base.{
  ℕ, Bool, true, false, ◌&&◌, ◌==◌, Option, none, some, List, [], ◌∷◌, if◌then◌else◌,
}
use emacs_module_rs.Machine.{Bytes}
use emacs_module_rs.Names.{equal_bytes}

abbrev pub Map : Type 0 → Type 0
Map V = List (Bytes × V)

module _ {V : Type 0} where
  -- `HashMap::get`
  unfoldable pub map_get : Bytes → Map V → Option V
  map_get key [] = none
  map_get key ((k, v) ∷ rest) =
      let found = map_get key rest in if equal_bytes k key then some v else found

  -- `HashMap::insert`: a key that is there keeps its place.
  unfoldable pub map_insert : Bytes → V → Map V → Map V
  map_insert key value [] = (key, value) ∷ []
  map_insert key value ((k, v) ∷ rest) =
      let later = map_insert key value rest in
      if equal_bytes k key then (k, value) ∷ rest else (k, v) ∷ later

  -- `HashMap::remove`
  unfoldable pub map_remove : Bytes → Map V → Map V
  map_remove key [] = []
  map_remove key ((k, v) ∷ rest) =
      let later = map_remove key rest in if equal_bytes k key then later else (k, v) ∷ later
