-- ===== src/Base/Assoc.antt =====
-- Go's `map[string]V` as an association list: a write replaces the entry of its key.
use Prim.Native.String.{String}
use mathlib.Core.Path.{◌≡◌}
use mathlib.Core.Option.{Option, none, some}
use mathlib.Core.List.{List, [], ◌∷◌}
use native.Mathlib.Omega.{arith}
use text.Mathlib.Text.{◌==◌}
use text.Mathlib.TextEquality.{eq_iff}
use open_bbc.Base.Tests.{if◌then◌else◌}

abbrev pub Table {ℓ} : Type ℓ → Type ℓ
Table V = List (String × V)

module _ {ℓ} {V : Type ℓ} where
  unfoldable pub lookup : String → Table V → Option V
  lookup key [] = none
  lookup key (entry ∷ table) =
      let rest = lookup key table in if entry.0 == key then some entry.1 else rest

  unfoldable pub insert : String → V → Table V → Table V
  insert key value [] = (key, value) ∷ []
  insert key value (entry ∷ table) =
      let rest = insert key value table in
      if entry.0 == key then (key, value) ∷ table else entry ∷ rest

  unfoldable pub without : String → Table V → Table V
  without key [] = []
  without key (entry ∷ table) =
      let rest = without key table in if entry.0 == key then rest else entry ∷ rest

  pub lookup-insert :
      (written key : String) (value : V) (table : Table V)
      → lookup key (insert written value table)
        ≡ (if written == key then some value else lookup key table)
  unfolding lookup insert
  lookup-insert written key value [] = ground arith
  lookup-insert written key value (entry ∷ table) = ground (
    arith,
    lookup-insert written key value table,
    eq_iff entry.0 written,
    eq_iff entry.0 key,
    eq_iff written key,
  )

  pub lookup-without :
      (removed key : String) (table : Table V)
      → lookup key (without removed table) ≡ (if removed == key then none else lookup key table)
  unfolding lookup without
  lookup-without removed key [] = ground arith
  lookup-without removed key (entry ∷ table) = ground (
    arith,
    lookup-without removed key table,
    eq_iff entry.0 removed,
    eq_iff entry.0 key,
    eq_iff removed key,
  )
