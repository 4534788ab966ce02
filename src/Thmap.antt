-- ===== src/Thmap.antt =====
-- The interface of the thmap library, a concurrent hash map that the sources call and do not
-- contain: `thmap_get`, `thmap_put` and `thmap_del`, with what its manual page promises of a caller
-- that runs alone. The components take a map as a parameter.
pub mod Assoc
use npf.Prelude.{◌≡◌, ◌≢◌, Option, none, some}

-- `put` returns the value that is in the map afterwards: the given one, or the one that was there.
pub record Thmap (K V : Type 0) : Type 1 where
  pub Map : Type 0
  pub empty : Map
  pub get : Map → K → Option V
  pub put : Map → K → V → Map × V
  pub del : Map → K → Map × Option V
  pub get_empty : (k : K) → get empty k ≡ none
  pub put_absent : (m : Map) (k : K) (v : V) → get m k ≡ none → (put m k v).1 ≡ v
  pub get-put : (m : Map) (k : K) (v : V) → get m k ≡ none → get (put m k v).0 k ≡ some v
  pub put_present : (m : Map) (k : K) (v w : V) → get m k ≡ some w → put m k v ≡ (m, w)
  pub get-put_ne : (m : Map) (k j : K) (v : V) → k ≢ j → get (put m k v).0 j ≡ get m j
  pub del_value : (m : Map) (k : K) → (del m k).1 ≡ get m k
  pub get-del : (m : Map) (k : K) → get (del m k).0 k ≡ none
  pub get-del_ne : (m : Map) (k j : K) → k ≢ j → get (del m k).0 j ≡ get m j
