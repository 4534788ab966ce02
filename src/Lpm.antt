-- ===== src/Lpm.antt =====
-- The interface of the lpm library, which the sources call and do not contain: a store of values under
-- network prefixes. A lookup gives the value of the longest prefix that covers the address. The tables
-- take a store as a parameter.
pub mod Assoc
use npf.Prelude.{
  ℕ, ◌≡◌, ◌≢◌, Bool, true, false, ◌&&◌, List, [], ◌∷◌, Option, none, some, ◌==◌, if◌then◌else◌,
}
use npf.Inet.{addr_mask}

abbrev pub same_words : List ℕ → List ℕ → Bool
same_words [] [] = true
same_words [] (y ∷ b) = false
same_words (x ∷ a) [] = false
same_words (x ∷ a) (y ∷ b) = x == y && same_words a b

-- An address lies in the network of another one and a prefix length.
abbrev pub covers : List ℕ → ℕ → List ℕ → Bool
covers net preflen addr = same_words (addr_mask net preflen) (addr_mask addr preflen)

-- `insert` and `remove` also answer whether they succeed.
pub record Lpm : Type 1 where
  pub Trie : Type 0
  pub empty : Trie
  pub lookup : Trie → List ℕ → Option ℕ
  pub insert : Trie → List ℕ → ℕ → ℕ → Trie × Bool
  pub remove : Trie → List ℕ → ℕ → Trie × Bool
  pub lookup_empty : (addr : List ℕ) → lookup empty addr ≡ none
  pub lookup-insert :
      (t : Trie) (net addr : List ℕ) (preflen v : ℕ)
      → (insert t net preflen v).1 ≡ true
      → lookup t addr ≡ none
      → lookup (insert t net preflen v).0 addr ≡ (if covers net preflen addr then some v else none)
  pub lookup-insert_some :
      (t : Trie) (net addr : List ℕ) (preflen v w : ℕ)
      → (insert t net preflen v).1 ≡ true
      → lookup t addr ≡ some w
      → (x : ℕ) × (lookup (insert t net preflen v).0 addr ≡ some x)
