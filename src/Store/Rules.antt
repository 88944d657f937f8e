-- ===== src/Store/Rules.antt =====
-- How a predicate on the tables passes through the statements of a transaction: it is to hold of the
-- tables as they were, which an error leaves, and of those that are committed.
use open_bbc.Base.{◌≡◌, refl, Bool, true, false, Option, none, some, if◌then◌else◌}
use open_bbc.Store.{Db, StoreError, Result, ok, err, ◌>>=◌, ◌>>◌, or_err, check, after}

-- The predicate holds of the tables after the transaction.
pub record Leaves {ℓ} (P : Db → Type ℓ) (db : Db) {A : Type 0} (r : Result (A × Db)) : Type ℓ where
  pub holds : P (after db r)

module _ {ℓ} {P : Db → Type ℓ} {db : Db} (same : P db) where
  pub committed : {A : Type 0} (a : A) {next : Db} → P next → Leaves P db (ok (a, next))
  committed a h = record { holds = h }

  pub refused : {A : Type 0} (e : StoreError) → Leaves P db {A = A} (err e)
  refused e = record { holds = same }

  pub bound :
      {A B : Type 0} (m : Result A) (k : A → Result (B × Db))
      → ((a : A) → m ≡ ok a → Leaves P db (k a))
      → Leaves P db (m >>= k)
  unfolding ◌>>=◌
  bound (ok a) k next = next a refl
  bound (err e) k next = record { holds = same }

  pub found :
      {A B : Type 0} (e : StoreError) (o : Option A) (k : A → Result (B × Db))
      → ((a : A) → o ≡ some a → Leaves P db (k a))
      → Leaves P db (or_err e o >>= k)
  unfolding or_err ◌>>=◌
  found e none k next = record { holds = same }
  found e (some a) k next = next a refl

  pub checked :
      {B : Type 0} (b : Bool) (e : StoreError) (r : Result (B × Db))
      → (b ≡ true → Leaves P db r)
      → Leaves P db (check b e >> r)
  unfolding check ◌>>◌
  checked true e r next = next refl
  checked false e r next = record { holds = same }

  pub granted :
      {B : Type 0} (m : Result (Unit {0})) (r : Result (B × Db))
      → (m ≡ ok tt → Leaves P db r)
      → Leaves P db (m >> r)
  unfolding ◌>>◌
  granted (ok tt) r next = next refl
  granted (err e) r next = record { holds = same }

  pub branched :
      {B : Type 0} (b : Bool) (r s : Result (B × Db))
      → (b ≡ true → Leaves P db r)
      → (b ≡ false → Leaves P db s)
      → Leaves P db (if b then r else s)
  branched true r s h k = h refl
  branched false r s h k = k refl

  pub passed :
      {B : Type 0} (m : Result (Unit {0})) (r : Result (B × Db))
      → Leaves P db r
      → Leaves P db (m >> r)
  unfolding ◌>>◌
  passed (ok u) r h = h
  passed (err e) r h = record { holds = same }
