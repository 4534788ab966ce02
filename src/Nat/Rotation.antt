-- ===== src/Nat/Rotation.antt =====
-- The comparison of policies at a reload, src/kern/npf_nat.c, after a policy has selected addresses.
use npf.Prelude.{
  ℕ, ◌<◌, ◌≡◌, inl, inr, refl, arith, true, false, not, Bool-cases, List, ◌==◌, ==-refl, add32,
  u32_mod,
}
use npf.Packet.{Cache}
use npf.Thmap.{Thmap}
use npf.Lpm.{Lpm}
use npf.Table.Ipset.{same_words_refl}
use npf.Table.Set.{Tableset, Tables}
use npf.Nat.{Policy, algo_rr}
use npf.Nat.Policies.{natpolicy_cmp}
use npf.Nat.Entries.{nat_getaddr}

natpolicy_cmp_refl : (np : Policy) → natpolicy_cmp np np ≡ true
unfolding natpolicy_cmp
natpolicy_cmp_refl np =
    rw
      (
        ==-refl np.type,
        ==-refl np.flags,
        ==-refl np.alen,
        same_words_refl np.taddr,
        ==-refl np.tmask,
        ==-refl np.tport,
        ==-refl np.tid,
        ==-refl np.algo,
        ==-refl np.extra,
      )
      refl

turned : (x : ℕ) → x < u32_mod → (add32 x 1 == x) ≡ false
turned x h = ground arith

-- Policies with a different union do not match.
cmp_extra : (np mnp : Policy) → (np.extra == mnp.extra) ≡ false → natpolicy_cmp np mnp ≡ false
unfolding natpolicy_cmp
cmp_extra np mnp other = ground (arith, other)

module _ (maps : Thmap (List ℕ) ℕ) (lpms : Lpm) where
  -- A policy, its turn a number of 32 bits, that has selected an address for a connection matches the policy that it was before exactly
  -- if its algorithm is not round robin, whatever the tables and the packet: the turn of the round robin
  -- is compared too.
  pub natpolicy_cmp-getaddr :
      (mem : Tables maps lpms) (ts : Tableset) (npc : Cache) (np : Policy)
      → np.extra < u32_mod
      → natpolicy_cmp (nat_getaddr maps lpms mem ts npc np).1 np ≡ not (np.algo == algo_rr)
  unfolding nat_getaddr
  natpolicy_cmp-getaddr mem ts npc np small = elim (Bool-cases (np.algo == algo_rr)) [
    | inr other ↦ rw other (natpolicy_cmp_refl np)
    | inl rr ↦ rw rr (cmp_extra (record np { extra = add32 np.extra 1 }) np (turned np.extra small))
  ]
