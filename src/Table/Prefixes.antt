-- ===== src/Table/Prefixes.antt =====
-- A table of networks, which the longest prefix match answers.
use npf.Prelude.{
  ℕ, ◌*◌, ◌≡◌, refl, sym, ap, ◌∙◌, inl, inr, Bool, true, false, ◌||◌, Bool-cases, Option-cases,
  List, none, some, ◌==◌, if◌then◌else◌,
}
use npf.Inet.{netmask_check, no_netmask}
use npf.Thmap.{Thmap}
use npf.Lpm.{Lpm, covers}
use npf.Table.{lpm, einval, eexist, enoent, Table}
use npf.Table.Ops.{Cdb, is_found, linked, with_entry, table_insert, table_remove, table_lookup}

-- The length of the prefix that a mask stands for.
abbrev pub prefix_of : ℕ → ℕ → ℕ
prefix_of alen mask = if mask == no_netmask then alen * 8 else mask

module _ (maps : Thmap (List ℕ) ℕ) (lpms : Lpm) where
  lookup_trie :
      (cdb : Cdb) (t : Table maps lpms) (alen : ℕ) (addr : List ℕ)
      → t.type ≡ lpm
      → netmask_check alen no_netmask ≡ true
      → table_lookup maps lpms cdb t alen addr
        ≡ (if is_found (lpms.lookup t.trie addr) then none else some enoent)
  unfolding table_lookup
  lookup_trie cdb t alen addr kind good = simp (good, kind)

  lookup_bad :
      (cdb : Cdb) (t : Table maps lpms) (alen : ℕ) (addr : List ℕ)
      → netmask_check alen no_netmask ≡ false
      → table_lookup maps lpms cdb t alen addr ≡ some einval
  unfolding table_lookup
  lookup_bad cdb t alen addr bad = simp bad

  insert_covered :
      (memory : Bool) (t : Table maps lpms) (alen : ℕ) (net : List ℕ) (mask w : ℕ)
      → t.type ≡ lpm
      → netmask_check alen mask ≡ true
      → lpms.lookup t.trie net ≡ some w
      → table_insert maps lpms memory t alen net mask ≡ (some eexist, t)
  unfolding table_insert
  insert_covered memory t alen net mask w kind good there = simp (good, kind, there) refl

  insert_refused :
      (memory : Bool) (t : Table maps lpms) (alen : ℕ) (net : List ℕ) (mask : ℕ)
      → t.type ≡ lpm
      → netmask_check alen mask ≡ true
      → lpms.lookup t.trie net ≡ none
      → (lpms.insert t.trie net (prefix_of alen mask) t.next).1 ≡ false
      → (table_insert maps lpms memory t alen net mask).0 ≡ some eexist
  unfolding table_insert
  insert_refused memory t alen net mask kind good free no_room = simp (good, kind, free, no_room)

  insert_net :
      (memory : Bool) (t : Table maps lpms) (alen : ℕ) (net : List ℕ) (mask : ℕ)
      → t.type ≡ lpm
      → netmask_check alen mask ≡ true
      → lpms.lookup t.trie net ≡ none
      → (lpms.insert t.trie net (prefix_of alen mask) t.next).1 ≡ true
      → (table_insert maps lpms memory t alen net mask).1
        ≡ linked maps lpms
            (record (with_entry maps lpms t alen net (prefix_of alen mask)) {
              trie = (lpms.insert t.trie net (prefix_of alen mask) t.next).0;
            })
            t.next
  unfolding table_insert
  insert_net memory t alen net mask kind good free room = simp (good, kind, free, room)

  insert_bad :
      (memory : Bool) (t : Table maps lpms) (alen : ℕ) (net : List ℕ) (mask : ℕ)
      → netmask_check alen mask ≡ false
      → (table_insert maps lpms memory t alen net mask).0 ≡ some einval
  unfolding table_insert
  insert_bad memory t alen net mask bad = simp bad

  -- What a lookup finds in the store after the insertion.
  found_after :
      (trie : lpms.Trie) (net addr : List ℕ) (preflen v : ℕ)
      → (lpms.insert trie net preflen v).1 ≡ true
      → is_found (lpms.lookup (lpms.insert trie net preflen v).0 addr)
        ≡ (is_found (lpms.lookup trie addr) || covers net preflen addr)
  found_after trie net addr preflen v room = elim (Option-cases (lpms.lookup trie addr)) [
    | inl free ↦ elim (Bool-cases (covers net preflen addr)) [
      | inl inside ↦ rw (lpms.lookup-insert trie net addr preflen v room free, free, inside) refl
      | inr outside ↦ rw (lpms.lookup-insert trie net addr preflen v room free, free, outside) refl
    ]
    | inr (w, there) ↦
        rw ((lpms.lookup-insert_some trie net addr preflen v w room there).1, there) refl
  ]

  -- After a network is inserted into a table of networks with success, a lookup finds an address of
  -- a valid length exactly
  -- if it was found before or lies in the network, whatever networks the table held.
  pub lookup-insert_net :
      (cdb : Cdb) (memory : Bool) (t : Table maps lpms) (alen len : ℕ) (net addr : List ℕ)
      (mask : ℕ)
      → t.type ≡ lpm
      → (table_insert maps lpms memory t alen net mask).0 ≡ none
      → netmask_check len no_netmask ≡ true
      → table_lookup maps lpms cdb (table_insert maps lpms memory t alen net mask).1 len addr ≡ (
          if is_found (lpms.lookup t.trie addr) || covers net (prefix_of alen mask) addr
          then none
          else some enoent)
  lookup-insert_net cdb memory t alen len net addr mask kind ok valid =
      elim (Bool-cases (netmask_check alen mask)) [
        | inr bad ↦ cc (sym (insert_bad memory t alen net mask bad) ∙ ok)
        | inl good ↦ elim (Option-cases (lpms.lookup t.trie net)) [
          | inr (w, there) ↦
              cc
                (sym (ap (λ x. x.0) (insert_covered memory t alen net mask w kind good there)) ∙ ok)
          | inl free ↦ elim (Bool-cases (lpms.insert t.trie net (prefix_of alen mask) t.next).1) [
            | inr no_room ↦
                cc (sym (insert_refused memory t alen net mask kind good free no_room) ∙ ok)
            | inl room ↦
                let t' = (table_insert maps lpms memory t alen net mask).1 in
                let made = insert_net memory t alen net mask kind good free room in
                lookup_trie cdb t' len addr (ap (λ x. x.type) made ∙ kind) valid
                ∙ ap (λ x. if is_found (lpms.lookup x addr) then none else some enoent)
                    (ap (λ x. x.trie) made)
                ∙ ap (λ b. if b then none else some enoent)
                    (found_after t.trie net addr (prefix_of alen mask) t.next room)
          ]
        ]
      ]

  -- A network is refused as one that exists whenever the table finds the network's own address, whatever
  -- the lengths of the prefixes.
  pub insert_inside :
      (cdb : Cdb) (memory : Bool) (t : Table maps lpms) (alen : ℕ) (net : List ℕ) (mask : ℕ)
      → t.type ≡ lpm
      → netmask_check alen mask ≡ true
      → table_lookup maps lpms cdb t alen net ≡ none
      → table_insert maps lpms memory t alen net mask ≡ (some eexist, t)
  insert_inside cdb memory t alen net mask kind good found =
      elim (Bool-cases (netmask_check alen no_netmask)) [
        | inr bad ↦ cc (sym (lookup_bad cdb t alen net bad) ∙ found)
        | inl valid ↦ elim (Option-cases (lpms.lookup t.trie net)) [
          | inl free ↦
              let missing = ap (λ x. if is_found x then none else some enoent) free in
              cc (sym (lookup_trie cdb t alen net kind valid ∙ missing) ∙ found)
          | inr (w, there) ↦ insert_covered memory t alen net mask w kind good there
        ]
      ]

  -- The mask of a removal is checked and not used otherwise: with any two masks that pass the check, the
  -- answer and the table after it are the same.
  pub table_remove_mask :
      (t : Table maps lpms) (alen : ℕ) (addr : List ℕ) (mask other : ℕ)
      → netmask_check alen mask ≡ true
      → netmask_check alen other ≡ true
      → table_remove maps lpms t alen addr mask ≡ table_remove maps lpms t alen addr other
  unfolding table_remove
  table_remove_mask t alen addr mask other good fine = simp (good, fine)
