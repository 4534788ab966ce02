-- ===== src/Nat/Import.antt =====
-- The serialisation of the translation entries by src/kern/npf_nat.c. The binary addresses of a
-- description come with their lengths in bytes.
use Prim.Native.String.{String}
use mathlib.Core.Option.{some-injective}
use npf.Prelude.{
  ℕ, ◌+◌, ◌-◌, ◌%◌, ◌≡◌, inl, inr, refl, ap, ◌∙◌, Bool, true, not, ◌&&◌, ◌||◌, Bool-cases,
  Option-cases, List, ◌∷◌, Option, none, some, ◌==◌, if◌then◌else◌, ltb, update, update_same, add32,
  u16_mod, u64_mod,
}
use npf.Packet.{has_flag}
use npf.Thmap.{Thmap}
use npf.Ifmap.{Ifmap, ifmap_register, ifmap_copylogname, no_id}
use npf.Portmap.Ports.{Portmap, portmap_take}
use npf.Nat.{Policy, Entry, NatState, nat_portmap}
use npf.Nat.Policies.{or_default, words_of, put_policy}

-- The description of an entry: an absent field is `none`.
pub record EntryDict : Type 0 where
  pub ifname : Option String
  pub alen : Option ℕ
  pub oaddr : Option (ℕ × List ℕ)
  pub oport : Option ℕ
  pub taddr : Option (ℕ × List ℕ)
  pub tport : Option ℕ
  pub policy : Option ℕ

-- `npf_nat_export`
unfoldable pub nat_export : Ifmap → (ℕ → Policy) → Entry → EntryDict
nat_export ifmap policies nt = record {
  ifname = if nt.ifid == 0 then none else some (ifmap_copylogname ifmap nt.ifid);
  alen = some nt.alen;
  oaddr = some (nt.alen, words_of nt.alen nt.oaddr);
  oport = some nt.oport;
  taddr = some (nt.alen, words_of nt.alen nt.taddr);
  tport = some nt.tport;
  policy = some (policies nt.policy).id;
}

-- The number of the interface that an entry names, cut to the 16 bits of `nt_ifid`, and the map of
-- interfaces after it; `none` is the number zero, which stands for a full map.
abbrev pub import_ifid : (String → Option ℕ) → Ifmap → Option String → Option ℕ × Ifmap
import_ifid ifops_lookup ifmap none = (some 0, ifmap)
import_ifid ifops_lookup ifmap (some name) =
    let r = ifmap_register ifops_lookup ifmap name in
    let id = r.0 % u16_mod in if id == no_id then (none, r.1) else (some id, r.1)

-- A binary address of the expected length.
abbrev pub import_addr : ℕ → Option (ℕ × List ℕ) → Option (List ℕ)
import_addr alen none = none
import_addr alen (some (len, words)) = if len == alen then some words else none

-- The entry that `npf_nat_import` fills after it is zeroed; the length of the addresses is not set.
unfoldable pub imported : EntryDict → ℕ → ℕ → ℕ → List ℕ → List ℕ → Entry
imported nat p con ifid taddr oaddr = record {
  policy = p;
  ifid = ifid;
  alen = 0;
  taddr = taddr;
  oaddr = oaddr;
  oport = or_default nat.oport 0 % u16_mod;
  tport = or_default nat.tport 0 % u16_mod;
  alg = none;
  conn = con;
}

module _ (maps : Thmap (List ℕ) ℕ) where
  -- The state with the entry of a policy, and a reference more on it.
  abbrev pub import_entry : NatState maps → ℕ → Entry → Portmap maps → NatState maps
  import_entry st p entry pm =
      let np = st.policies p in
      record (put_policy maps st p
        (record np { refcnt = add32 np.refcnt 1; nat_list = st.next ∷ np.nat_list })) {
          entries = update st.entries st.next entry;
          next = st.next + 1;
          portmap = pm;
        }

  -- The port that is taken from the map.
  unfoldable pub import_port : Bool → NatState maps → ℕ → Entry → Bool × Portmap maps
  import_port bitmap st p entry =
      if has_flag (st.policies p).flags nat_portmap && not (entry.tport == 0)
      then portmap_take maps bitmap st.portmap (words_of entry.alen entry.taddr) entry.tport
      else (true, st.portmap)

  -- `npf_nat_import`. `find` is `npf_ruleset_findnat` on the NAT ruleset; an absent number of the policy
  -- is the largest one.
  unfoldable pub nat_import :
      (String → Option ℕ)
      → Bool
      → (ℕ → Option ℕ)
      → NatState maps
      → Ifmap
      → EntryDict
      → ℕ
      → Option ℕ × NatState maps × Ifmap
  nat_import ifops_lookup bitmap find st ifmap nat con =
      let ifid = import_ifid ifops_lookup ifmap nat.ifname in
      let alen = or_default nat.alen 0 in
      elim (find (or_default nat.policy (u64_mod - 1))) [
        | none ↦ (none, st, ifmap)
        | some p ↦ elim ifid.0 [
          | none ↦ (none, st, ifid.1)
          | some i ↦
              if (alen == 0) || ltb 16 alen
              then (none, st, ifid.1)
              else elim (import_addr alen nat.taddr) [
                | none ↦ (none, st, ifid.1)
                | some taddr ↦ elim (import_addr alen nat.oaddr) [
                  | none ↦ (none, st, ifid.1)
                  | some oaddr ↦
                      let entry = imported nat p con i taddr oaddr in
                      let port = import_port bitmap st p entry in
                      if port.0
                      then (some st.next, import_entry st p entry port.1, ifid.1)
                      else (none, record st { portmap = port.1 }, ifid.1)
                ]
              ]
        ]
      ]

  -- An entry whose addresses have the length 0 is exported to a description that every import refuses.
  pub export_unset :
      (ifops_lookup : String → Option ℕ) (bitmap : Bool) (find : ℕ → Option ℕ) (st : NatState maps)
      (ifmap saved : Ifmap) (policies : ℕ → Policy) (nt : Entry) (con : ℕ)
      → nt.alen ≡ 0
      → (nat_import ifops_lookup bitmap find st ifmap (nat_export saved policies nt) con).0 ≡ none
  unfolding nat_import nat_export
  export_unset ifops_lookup bitmap find st ifmap saved policies nt con unset =
      elim (Option-cases (find (policies nt.policy).id)) [
        | inl unknown ↦ rw (unknown, nat_import) refl
        | inr (p, known) ↦
            elim (Option-cases
              (import_ifid ifops_lookup ifmap (nat_export saved policies nt).ifname).0) [
                | inl full ↦ rw (known, full, nat_import) refl
                | inr (i, there) ↦ rw (known, there, unset, nat_import) refl
              ]
      ]

  -- The entry that a result names has no length.
  abbrev IsUnset : Option ℕ × NatState maps × Ifmap → Type 0
  IsUnset r = (nt : ℕ) → r.0 ≡ some nt → (r.1.entries nt).alen ≡ 0

  refused : (st : NatState maps) (ifmap : Ifmap) → IsUnset (none, st, ifmap)
  refused st ifmap nt e = cc e

  made-IsUnset :
      (st : NatState maps) (p : ℕ) (entry : Entry) (pm : Portmap maps) (ifmap : Ifmap)
      → entry.alen ≡ 0
      → IsUnset (some st.next, import_entry st p entry pm, ifmap)
  made-IsUnset st p entry pm ifmap unset nt e =
      ap (λ x. x.alen) (update_same st.entries st.next nt entry (some-injective st.next nt e))
      ∙ unset

  import-IsUnset :
      (ifops_lookup : String → Option ℕ) (bitmap : Bool) (find : ℕ → Option ℕ) (st : NatState maps)
      (ifmap : Ifmap) (nat : EntryDict) (con : ℕ)
      → IsUnset (nat_import ifops_lookup bitmap find st ifmap nat con)
  unfolding nat_import imported
  import-IsUnset ifops_lookup bitmap find st ifmap nat con =
      let ifid = import_ifid ifops_lookup ifmap nat.ifname in
      let alen = or_default nat.alen 0 in
      elim (Option-cases (find (or_default nat.policy (u64_mod - 1)))) [
        | inl unknown ↦ rw (unknown, nat_import) (refused st ifmap)
        | inr (p, known) ↦ elim (Option-cases ifid.0) [
          | inl full ↦ rw (known, full, nat_import) (refused st ifid.1)
          | inr (i, there) ↦ elim (Bool-cases ((alen == 0) || ltb 16 alen)) [
            | inl bad ↦ rw (known, there, bad, nat_import) (refused st ifid.1)
            | inr good ↦ elim (Option-cases (import_addr alen nat.taddr)) [
              | inl no_taddr ↦ rw (known, there, good, no_taddr, nat_import) (refused st ifid.1)
              | inr (taddr, t) ↦ elim (Option-cases (import_addr alen nat.oaddr)) [
                | inl no_oaddr ↦
                    rw (known, there, good, t, no_oaddr, nat_import) (refused st ifid.1)
                | inr (oaddr, o) ↦
                    let entry = imported nat p con i taddr oaddr in
                    let port = import_port bitmap st p entry in
                    rw (known, there, good, t, o, nat_import)
                      (elim (Bool-cases port.0) [
                        | inl taken ↦ rw taken (made-IsUnset st p entry port.1 ifid.1 refl)
                        | inr held ↦ rw held (refused (record st { portmap = port.1 }) ifid.1)
                      ])
              ]
            ]
          ]
        ]
      ]

  -- The import of a description either makes no entry, or makes one that has the length 0 for its
  -- addresses, and every import of what `npf_nat_export` writes of it makes none, whatever the
  -- policies, the interfaces and the memory are by then.
  pub nat_import-export :
      (ifops_lookup ifops_lookup' : String → Option ℕ) (bitmap bitmap' : Bool)
      (find find' : ℕ → Option ℕ) (st later : NatState maps) (ifmap saved fresh : Ifmap)
      (policies : ℕ → Policy) (nat : EntryDict) (con nt con' : ℕ)
      → (nat_import ifops_lookup bitmap find st ifmap nat con).0 ≡ some nt
      → let entry = (nat_import ifops_lookup bitmap find st ifmap nat con).1.entries nt in
        (entry.alen ≡ 0)
        × ((nat_import ifops_lookup' bitmap' find' later fresh
              (nat_export saved policies entry)
              con').0
            ≡ none)
  nat_import-export ifops_lookup ifops_lookup' bitmap bitmap' find find' st later ifmap saved fresh
        policies nat con nt con' made =
      let st' = (nat_import ifops_lookup bitmap find st ifmap nat con).1 in
      let unset = import-IsUnset ifops_lookup bitmap find st ifmap nat con nt made in
      (
        unset,
        export_unset ifops_lookup' bitmap' find' later fresh saved policies (st'.entries nt) con'
            unset,
      )
