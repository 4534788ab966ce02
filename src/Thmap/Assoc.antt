-- ===== src/Thmap/Assoc.antt =====
-- An association list meets the interface of the map, for keys whose equality is decidable.
use npf.Prelude.{◌≡◌, ◌≢◌, refl, Option, none, some, List, [], ◌∷◌, arith}
use mathlib.Core.Logic.{ite}
use npf.Thmap.{Thmap}

module _ {K V : Type 0} (eq : Discrete K) where
  abbrev pub find : List (K × V) → K → Option V
  find [] k = none
  find ((j, v) ∷ m) k = ite (eq j k) (some v) (find m k)

  abbrev pub insert : List (K × V) → K → V → List (K × V) × V
  insert m k v = elim (find m k) [ none ↦ ((k, v) ∷ m, v) | some w ↦ (m, w) ]

  abbrev pub remove : List (K × V) → K → List (K × V)
  remove [] k = []
  remove ((j, v) ∷ m) k = let rest = remove m k in ite (eq j k) rest ((j, v) ∷ rest)

  pub insert_absent : (m : List (K × V)) (k : K) (v : V) → find m k ≡ none → (insert m k v).1 ≡ v
  insert_absent m k v h = ground arith

  pub find-insert :
      (m : List (K × V)) (k : K) (v : V) → find m k ≡ none → find (insert m k v).0 k ≡ some v
  find-insert m k v h = ground arith

  pub insert_present :
      (m : List (K × V)) (k : K) (v w : V) → find m k ≡ some w → insert m k v ≡ (m, w)
  insert_present m k v w h = ground arith

  pub find-insert_ne :
      (m : List (K × V)) (k j : K) (v : V) → k ≢ j → find (insert m k v).0 j ≡ find m j
  find-insert_ne m k j v ne = ground arith

  pub find-remove : (m : List (K × V)) (k : K) → find (remove m k) k ≡ none
  find-remove [] k = refl
  find-remove ((j, v) ∷ m) k = ground (arith, find-remove m k)

  pub find-remove_ne : (m : List (K × V)) (k j : K) → k ≢ j → find (remove m k) j ≡ find m j
  find-remove_ne [] k j ne = refl
  find-remove_ne ((i, v) ∷ m) k j ne = ground (arith, find-remove_ne m k j ne)

  abbrev pub assoc_map : Thmap K V
  assoc_map = record {
    Map = List (K × V);
    empty = [];
    get = find;
    put = insert;
    del = λ m k. (remove m k, find m k);
    get_empty = λ k. refl;
    put_absent = insert_absent;
    get-put = find-insert;
    put_present = insert_present;
    get-put_ne = find-insert_ne;
    del_value = λ m k. refl;
    get-del = find-remove;
    get-del_ne = find-remove_ne;
  }
