-- ===== src/Ruleset/Inspect.antt =====
-- The inspection of packets by src/kern/npf_ruleset.c. What the filter code of a rule answers on the
-- packet is the parameter `filter`.
use npf.Prelude.{
  ℕ, zero, suc, ◌+◌, Bool, true, false, not, ◌&&◌, List, [], ◌∷◌, Option, none, some, ◌==◌,
  if◌then◌else◌, bit_and, get_elem?,
}
use npf.Packet.{has_flag}
use npf.Ruleset.{
  Rule, Ruleset, is_dynamic_group, rule_pass, rule_group, rule_final, rule_in, rule_out,
  rule_dimask, skipto_mask,
}

abbrev pub pfil_in : ℕ
pfil_in = 1

abbrev pub is_some {ℓ} : {A : Type ℓ} → Option A → Bool
is_some none = false
is_some (some a) = true

module _ (filter : ℕ → Bool) where
  -- `npf_rule_inspect`
  unfoldable pub rule_inspect : Rule → ℕ → ℕ → Bool
  rule_inspect rl di_mask ifid =
      if not (rl.ifid == 0) && not (rl.ifid == ifid)
      then false
      else if not (bit_and rl.attr rule_dimask == rule_dimask) && bit_and rl.attr di_mask == 0
      then false
      else elim rl.code [ none ↦ true | some code ↦ filter code ]

  -- The loop of `npf_rule_reinspect`.
  unfoldable pub reinspect_loop : (ℕ → Rule) → ℕ → ℕ → List ℕ → Option ℕ → Option ℕ
  reinspect_loop rules di_mask ifid [] final_rl = final_rl
  reinspect_loop rules di_mask ifid (rl ∷ rest) final_rl =
      let skipped = reinspect_loop rules di_mask ifid rest final_rl in
      let later = reinspect_loop rules di_mask ifid rest (some rl) in
      if not (rule_inspect (rules rl) di_mask ifid)
      then skipped
      else if has_flag (rules rl).attr rule_final
      then some rl
      else later

  -- `npf_rule_reinspect`
  abbrev pub rule_reinspect : (ℕ → Rule) → ℕ → ℕ → ℕ → Option ℕ
  rule_reinspect rules rg di_mask ifid = reinspect_loop rules di_mask ifid (rules rg).subset none

  -- The loop of `npf_ruleset_inspect` from the slot `n` on; `none` is a lack of fuel. That a rule leads
  -- to a later slot is an assertion of the source, and not asked for here.
  unfoldable pub inspect_loop : (ℕ → Rule) → List ℕ → ℕ → ℕ → ℕ → ℕ → Option ℕ → Option (Option ℕ)
  inspect_loop rules items di_mask ifid zero n final_rl = elim (get_elem? items n) [
    | none ↦ some final_rl
    | some r ↦ none
  ]
  inspect_loop rules items di_mask ifid (suc fuel) n final_rl = elim (get_elem? items n) [
    | none ↦ some final_rl
    | some r ↦
        let rl = rules r in
        let skip_to = bit_and rl.skip_to skipto_mask in
        let matched = if has_flag rl.attr rule_group then final_rl else some r in
        let skipped = inspect_loop rules items di_mask ifid fuel skip_to final_rl in
        let unmatched = inspect_loop rules items di_mask ifid fuel (n + 1) final_rl in
        let later = inspect_loop rules items di_mask ifid fuel (n + 1) matched in
        if has_flag rl.attr rule_group && is_some final_rl
        then some final_rl
        else if not (rule_inspect rl di_mask ifid)
        then skipped
        else if is_dynamic_group rl.attr
        then elim (rule_reinspect rules r di_mask ifid) [
          | some q ↦ some (some q)
          | none ↦ if has_flag rl.attr rule_final then some final_rl else unmatched
        ]
        else if has_flag rl.attr rule_final
        then some matched
        else later
  ]

  -- `npf_ruleset_inspect`, of a packet with the interface `ifid`.
  unfoldable pub ruleset_inspect : (ℕ → Rule) → Ruleset → ℕ → ℕ → ℕ → Option (Option ℕ)
  ruleset_inspect rules rs di ifid fuel =
      let di_mask = if has_flag di pfil_in then rule_in else rule_out in
      inspect_loop rules rs.items di_mask ifid fuel 0 none

-- `npf_rule_conclude`: the flags and the number of the rule, and whether it passes the packet.
unfoldable pub rule_conclude : Rule → ℕ × ℕ × Bool
rule_conclude rl = (rl.attr, rl.id, has_flag rl.attr rule_pass)
