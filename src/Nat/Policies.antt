-- ===== src/Nat/Policies.antt =====
-- The policies of src/kern/npf_nat.c: from a description and back, their comparison, and the references.
use npf.Prelude.{
  ℕ, ◌/◌, ◌%◌, Bool, not, ◌&&◌, ◌||◌, List, [], ◌∷◌, ◌++◌, Option, none, some, ◌==◌, if◌then◌else◌,
  ltb, take, replicate, update, add32, sub32, not32, bit_and, bit_or, u16_mod, u32_mod,
}
use npf.Packet.{has_flag}
use npf.Inet.{netmask_check, no_netmask}
use npf.Lpm.{same_words}
use npf.Thmap.{Thmap}
use npf.Nat.{
  Policy, NatState, natin, natout, nat_static, nat_privmask, nat_usetable, algo_netmap, algo_npt66,
}

-- The description of a policy: an absent field is `none`. The address is given with its length in bytes.
pub record PolicyDict : Type 0 where
  pub id : Option ℕ
  pub type : Option ℕ
  pub flags : Option ℕ
  pub table_id : Option ℕ
  pub addr : Option (ℕ × List ℕ)
  pub mask : Option ℕ
  pub port : Option ℕ
  pub algo : Option ℕ
  pub npt66_adj : Option ℕ

-- `dnvlist_get_number`
abbrev pub or_default : Option ℕ → ℕ → ℕ
or_default none d = d
or_default (some n) d = n

-- The words that `len` bytes take.
abbrev pub words_of : ℕ → List ℕ → List ℕ
words_of len addr = take (len / 4) addr

-- The four words of an `npf_addr_t` that is filled from its start.
abbrev pub padded : List ℕ → List ℕ
padded words = take 4 (words ++ replicate 4 0)

-- The address part of `npf_natpolicy_create`, on the policy with the fields before it.
unfoldable pub policy_address : PolicyDict → Policy → Option Policy
policy_address nat np = elim nat.table_id [
  | some tid ↦
      if has_flag np.flags nat_static
      then none
      else some (record np {
        tid = tid % u32_mod;
        tmask = no_netmask;
        flags = bit_or np.flags nat_usetable;
      })
  | none ↦ elim nat.addr [
    | none ↦ none
    | some (len, words) ↦
        let mask = or_default nat.mask no_netmask % 256 in
        if (len == 0) || ltb 16 len || not (netmask_check len mask)
        then none
        else some (record np { taddr = padded (words_of len words); alen = len; tmask = mask })
  ]
]

-- The part of `npf_natpolicy_create` on the algorithm.
unfoldable pub policy_algo : PolicyDict → Policy → Option Policy
policy_algo nat np =
    let algo = or_default nat.algo 0 % u32_mod in
    let made : Policy = record np { algo = algo } in
    if algo == algo_npt66
    then some (record made { extra = or_default nat.npt66_adj 0 % u16_mod })
    else if algo == algo_netmap
    then some made
    else if np.tmask == no_netmask
    then some made
    else none

-- `npf_natpolicy_create`
unfoldable pub natpolicy_create : PolicyDict → Option Policy
natpolicy_create nat =
    let type = or_default nat.type 0 % u32_mod in
    let np : Policy = record {
      refcnt = 1;
      id = or_default nat.id 0;
      type = type;
      flags = bit_and (or_default nat.flags 0 % u32_mod) (not32 nat_privmask);
      alen = 0;
      taddr = replicate 4 0;
      tmask = 0;
      tport = 0;
      tid = 0;
      algo = 0;
      extra = 0;
      nat_list = [];
    } in
    if not ((type == natin) || (type == natout)) then none else elim (policy_address nat np) [
      | none ↦ none
      | some addressed ↦
          policy_algo nat (record addressed { tport = or_default nat.port 0 % u16_mod })
    ]

-- `npf_natpolicy_export`
unfoldable pub natpolicy_export : Policy → PolicyDict
natpolicy_export np =
    let table = has_flag np.flags nat_usetable in
    record {
      id = some np.id;
      type = some np.type;
      flags = some np.flags;
      table_id = if table then some np.tid else none;
      addr = if table then none else some (np.alen, words_of np.alen np.taddr);
      mask = if table then none else some np.tmask;
      port = some np.tport;
      algo = some np.algo;
      npt66_adj = if np.algo == algo_npt66 then some np.extra else none;
    }

-- `npf_natpolicy_cmp`: the fields from `n_type` on.
unfoldable pub natpolicy_cmp : Policy → Policy → Bool
natpolicy_cmp np mnp =
    (np.type == mnp.type)
    && ((np.flags == mnp.flags)
        && ((np.alen == mnp.alen)
            && (same_words np.taddr mnp.taddr
                && ((np.tmask == mnp.tmask)
                    && ((np.tport == mnp.tport)
                        && ((np.tid == mnp.tid)
                            && ((np.algo == mnp.algo) && (np.extra == mnp.extra))))))))

module _ (maps : Thmap (List ℕ) ℕ) where
  -- A write to a policy.
  abbrev pub put_policy : NatState maps → ℕ → Policy → NatState maps
  put_policy st p np = record st { policies = update st.policies p np }

  -- The increment of `n_refcnt`.
  abbrev pub policy_hold : NatState maps → ℕ → NatState maps
  policy_hold st p =
      put_policy st p (record (st.policies p) { refcnt = add32 (st.policies p).refcnt 1 })

  -- `npf_natpolicy_release`
  unfoldable pub policy_release : NatState maps → ℕ → NatState maps
  policy_release st p =
      let left = sub32 (st.policies p).refcnt 1 in
      let dropped = put_policy st p (record (st.policies p) { refcnt = left }) in
      if left == 0 then record dropped { freed = p ∷ st.freed } else dropped
