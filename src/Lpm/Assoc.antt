-- ===== src/Lpm/Assoc.antt =====
-- A list of prefixes, searched for the longest one that covers the address, meets the interface.
use npf.Prelude.{
  ℕ, ◌≡◌, refl, true, ◌&&◌, List, [], ◌∷◌, Option, none, some, ◌==◌, if◌then◌else◌, ltb,
  Option-cases, inl, inr, Bool-cases,
}
use npf.Lpm.{Lpm, covers, same_words}

pub record Prefix : Type 0 where
  pub net : List ℕ
  pub preflen : ℕ
  pub val : ℕ

abbrev pub longer : Prefix → Option Prefix → Option Prefix
longer p none = some p
longer p (some q) = if ltb p.preflen q.preflen then some q else some p

abbrev pub longest : List Prefix → List ℕ → Option Prefix
longest [] addr = none
longest (p ∷ rest) addr =
    let later = longest rest addr in if covers p.net p.preflen addr then longer p later else later

abbrev pub value_of : Option Prefix → Option ℕ
value_of none = none
value_of (some p) = some p.val

abbrev pub remove_prefix : List Prefix → List ℕ → ℕ → List Prefix
remove_prefix [] net preflen = []
remove_prefix (p ∷ rest) net preflen =
    let shorter = remove_prefix rest net preflen in
    if p.preflen == preflen && same_words p.net net then shorter else p ∷ shorter

pub longest-insert :
    (ps : List Prefix) (net addr : List ℕ) (preflen v : ℕ)
    → value_of (longest ps addr) ≡ none
    → value_of (longest (record { net = net; preflen = preflen; val = v } ∷ ps) addr)
      ≡ (if covers net preflen addr then some v else none)
longest-insert ps net addr preflen v e = elim (Option-cases (longest ps addr)) [
  | inl no_prefix ↦ elim (Bool-cases (covers net preflen addr)) [
    | inl inside ↦ rw no_prefix (rw inside refl)
    | inr outside ↦ rw no_prefix (rw outside refl)
  ]
  | inr (p, found) ↦ cc (rw found at e)
]

pub longest-insert_some :
    (ps : List Prefix) (net addr : List ℕ) (preflen v w : ℕ)
    → value_of (longest ps addr) ≡ some w
    → (x : ℕ) × (value_of (longest (record { net = net; preflen = preflen; val = v } ∷ ps) addr)
        ≡ some x)
longest-insert_some ps net addr preflen v w e = elim (Option-cases (longest ps addr)) [
  | inl no_prefix ↦ cc (rw no_prefix at e)
  | inr (p, found) ↦ elim (Bool-cases (covers net preflen addr)) [
    | inl inside ↦ elim (Bool-cases (ltb preflen p.preflen)) [
      | inl shorter ↦ (p.val, rw found (rw inside (rw shorter refl)))
      | inr other ↦ (v, rw found (rw inside (rw other refl)))
    ]
    | inr outside ↦ (p.val, rw found (rw outside refl))
  ]
]

abbrev pub assoc_lpm : Lpm
assoc_lpm = record {
  Trie = List Prefix;
  empty = [];
  lookup = λ t addr. value_of (longest t addr);
  insert = λ t net preflen v. (record { net = net; preflen = preflen; val = v } ∷ t, true);
  remove = λ t net preflen. (remove_prefix t net preflen, true);
  lookup_empty = λ addr. refl;
  lookup-insert = λ t net addr preflen v ok e. longest-insert t net addr preflen v e;
  lookup-insert_some = λ t net addr preflen v w ok e. longest-insert_some t net addr preflen v w e;
}
