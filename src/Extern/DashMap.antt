-- ===== src/Extern/DashMap.antt =====
-- The `dashmap` crate: a concurrent hash map with text keys. Each call holds the shard's lock, so a
-- call is one step. The order of `iter` is not specified.
use mathlib.Core.Option
use sse_gateway.Prelude.{
  ℕ, ◌≡◌, Text, List, Option, none, some, length, lookup, keys, Distinct, ◌==◌, if◌then◌else◌,
}

pub record DashMap : Type 1 where
  pub Map : Type 0 → Type 0
  pub empty : {V : Type 0} → Map V
  pub get : {V : Type 0} → Text → Map V → Option V
  pub insert : {V : Type 0} → Text → V → Map V → Map V
  -- `remove(k)`; its result is what `get` gave before
  pub remove : {V : Type 0} → Text → Map V → Map V
  -- `alter(k, f)`, and a write through the guard of `get_mut(k)`
  pub alter : {V : Type 0} → Text → (V → V) → Map V → Map V
  -- `entry(k).or_insert(d)`, written through the guard that it returns
  pub entry_or : {V : Type 0} → Text → V → (V → V) → Map V → Map V
  pub len : {V : Type 0} → Map V → ℕ
  pub iter : {V : Type 0} → Map V → List (Text × V)
  pub get-empty : {V : Type 0} (k : Text) → get {V = V} k empty ≡ none
  pub get-insert :
      {V : Type 0} (j k : Text) (v : V) (m : Map V)
      → get j (insert k v m) ≡ (if j == k then some v else get j m)
  pub get-remove :
      {V : Type 0} (j k : Text) (m : Map V)
      → get j (remove k m) ≡ (if j == k then none else get j m)
  pub get-alter :
      {V : Type 0} (j k : Text) (f : V → V) (m : Map V)
      → get j (alter k f m) ≡ (if j == k then Option.map f (get k m) else get j m)
  pub get-entry_or :
      {V : Type 0} (j k : Text) (d : V) (f : V → V) (m : Map V)
      → get j (entry_or k d f m)
        ≡ (if j == k then some (f (Option.get_or (get k m) d)) else get j m)
  -- `iter` yields each entry once
  pub lookup-iter : {V : Type 0} (k : Text) (m : Map V) → lookup k (iter m) ≡ get k m
  pub iter-Distinct : {V : Type 0} (m : Map V) → Distinct (keys (iter m))
  pub len-iter : {V : Type 0} (m : Map V) → len m ≡ length (iter m)
