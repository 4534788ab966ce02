-- ===== src/Ruleset/Forward.antt =====
-- The inspection of a ruleset ends: every rule leads to a later slot.
use npf.Prelude.{
  ℕ, zero, suc, ◌+◌, ◌%◌, u64_mod, ◌<◌, ◌≤◌, ◌≡◌, ◌≢◌, ◌⊎◌, inl, inr, refl, sym, ap, ◌∙◌, subst,
  arith, Bool, not, ◌&&◌, Bool-cases, Option-cases, List, [], ◌∷◌, ◌++◌, Option, none, some, ==→eq,
  ==-refl, ltb, if◌then◌else◌, bit_and, bit_or, length, get_elem?, update, In,
}
use npf.Prelude.Bits.{or_apart, and_low, and_mask}
use npf.Packet.{has_flag}
use npf.Ruleset.{
  Rule, Ruleset, is_dynamic_group, rule_group, rule_final, skipto_mask, skipto_adj_flag,
}
use npf.Ruleset.Inspect.{is_some, rule_inspect, rule_reinspect, inspect_loop}
use npf.Ruleset.Config.{inserted_rule, ruleset_insert}

-- The slot that a rule leads to if it does not match.
abbrev pub target : (ℕ → Rule) → ℕ → ℕ
target rules r = bit_and (rules r).skip_to skipto_mask

-- Every rule of the slots from `n` on leads to a later slot.
abbrev pub IsForward : (ℕ → Rule) → ℕ → List ℕ → Type 0
IsForward rules n [] = Unit
IsForward rules n (r ∷ rest) = (n < target rules r) × IsForward rules (n + 1) rest

forward_at :
    (rules : ℕ → Rule) (items : List ℕ) (n i r : ℕ)
    → IsForward rules n items
    → get_elem? items i ≡ some r
    → n + i < target rules r
forward_at rules [] n i r f e = cc
forward_at rules (q ∷ rest) n zero r f e =
    let same : q ≡ r = ground arith in
    let first : n < target rules r = subst (λ x. n < target rules x) same f.0 in omega arith
forward_at rules (q ∷ rest) n (suc i) r f e = omega (arith, forward_at rules rest (n + 1) i r f.1 e)

in_slots : (items : List ℕ) (n r : ℕ) → get_elem? items n ≡ some r → n < length items
in_slots [] n r e = cc
in_slots (q ∷ rest) zero r e = omega arith
in_slots (q ∷ rest) (suc n) r e = omega (arith, in_slots rest n r e)

module _ (filter : ℕ → Bool) where
  -- One step of the loop: an answer, a skip, or the next slot.
  loop_step :
      (rules : ℕ → Rule) (items : List ℕ) (di_mask ifid fuel n : ℕ) (final_rl : Option ℕ) (r : ℕ)
      → get_elem? items n ≡ some r
      → ((a : Option ℕ) × (inspect_loop filter rules items di_mask ifid (suc fuel) n final_rl
            ≡ some a))
        ⊎ ((inspect_loop filter rules items di_mask ifid (suc fuel) n final_rl
              ≡ inspect_loop filter rules items di_mask ifid fuel (target rules r) final_rl)
            ⊎ ((found : Option ℕ) × (inspect_loop filter rules items di_mask ifid
                    (suc fuel)
                    n
                    final_rl
                  ≡ inspect_loop filter rules items di_mask ifid fuel (n + 1) found)))
  unfolding inspect_loop
  loop_step rules items di_mask ifid fuel n final_rl r e =
      let rl = rules r in
      elim (Bool-cases (has_flag rl.attr rule_group && is_some final_rl)) [
        | inl barrier ↦ inl (final_rl, rw (e, inspect_loop) (rw barrier refl))
        | inr free ↦ elim (Bool-cases (not (rule_inspect filter rl di_mask ifid))) [
          | inl skip ↦ inr (inl (rw (e, inspect_loop) (rw free (rw skip refl))))
          | inr hit ↦ elim (Bool-cases (is_dynamic_group rl.attr)) [
            | inl group ↦ elim (Option-cases (rule_reinspect filter rules r di_mask ifid)) [
              | inl no_rule ↦ elim (Bool-cases (has_flag rl.attr rule_final)) [
                | inl last ↦ inl (
                  final_rl,
                  rw (e, inspect_loop) (rw free (rw hit (rw group (rw no_rule (rw last refl))))),
                )
                | inr later ↦ inr (
                    inr (
                      final_rl,
                      rw (e, inspect_loop)
                          (rw free (rw hit (rw group (rw no_rule (rw later refl))))),
                    ))
              ]
              | inr (q, found) ↦
                  inl (some q, rw (e, inspect_loop) (rw free (rw hit (rw group (rw found refl)))))
            ]
            | inr rule ↦ elim (Bool-cases (has_flag rl.attr rule_final)) [
              | inl last ↦ inl (
                if has_flag rl.attr rule_group then final_rl else some r,
                rw (e, inspect_loop) (rw free (rw hit (rw rule (rw last refl)))),
              )
              | inr later ↦ inr (
                  inr (
                    if has_flag rl.attr rule_group then final_rl else some r,
                    rw (e, inspect_loop) (rw free (rw hit (rw rule (rw later refl)))),
                  ))
            ]
          ]
        ]
      ]

  pub loop_ends :
      (rules : ℕ → Rule) (items : List ℕ) (di_mask ifid fuel n : ℕ) (final_rl : Option ℕ)
      → IsForward rules 0 items
      → length items ≤ n + fuel
      → (a : Option ℕ) × (inspect_loop filter rules items di_mask ifid fuel n final_rl ≡ some a)
  unfolding inspect_loop
  loop_ends rules items di_mask ifid zero n final_rl f h = elim (Option-cases (get_elem? items n)) [
    | inl e ↦ (final_rl, rw (e, inspect_loop) refl)
    | inr (r, e) ↦ absurd (omega (arith, in_slots items n r e))
  ]
  loop_ends rules items di_mask ifid (suc fuel) n final_rl f h =
      elim (Option-cases (get_elem? items n)) [
        | inl e ↦ (final_rl, rw (e, inspect_loop) refl)
        | inr (r, e) ↦
            let further = forward_at rules items 0 n r f e in
            let skipped =
              loop_ends rules items di_mask ifid fuel (target rules r) final_rl f (omega arith) in
            elim (loop_step rules items di_mask ifid fuel n final_rl r e) [
              | inl done ↦ done
              | inr (inl skip) ↦ (skipped.0, skip ∙ skipped.1)
              | inr (inr (found, next)) ↦
                  let later =
                    loop_ends rules items di_mask ifid fuel (n + 1) found f (omega arith) in
                  (later.0, next ∙ later.1)
            ]
      ]

insert_target :
    (n skip_to : ℕ)
    → skip_to < skipto_adj_flag
    → n + 1 < skipto_adj_flag
    → n
      < bit_and
          (if ltb skip_to (n + 1) then bit_or skipto_adj_flag (n + 1) else skip_to)
          skipto_mask
insert_target n skip_to h k = elim (Bool-cases (ltb skip_to (n + 1))) [
  | inl adjusted ↦ rw adjusted (
      omega (
        arith,
        or_apart 31 1 (n + 1),
        and_low 31 1 (n + 1),
        ap (λ t. bit_and t skipto_mask) (or_apart 31 1 (n + 1) k),
      ))
  | inr kept ↦ rw kept (ground (arith, and_mask 31 skip_to))
]

IsForward-append :
    (rules : ℕ → Rule) (n : ℕ) (items : List ℕ) (rl : ℕ)
    → IsForward rules n items
    → n + length items < target rules rl
    → IsForward rules n (items ++ (rl ∷ []))
IsForward-append rules n [] rl f h = (omega arith, tt)
IsForward-append rules n (q ∷ rest) rl f h =
    (f.0, IsForward-append rules (n + 1) rest rl f.1 (omega arith))

-- What happens to another rule does not matter.
IsForward-update :
    (rules : ℕ → Rule) (n : ℕ) (items : List ℕ) (rl : ℕ) (r : Rule)
    → IsForward rules n items
    → ¬ (In rl items)
    → IsForward (update rules rl r) n items
IsForward-update rules n [] rl r f fresh = tt
IsForward-update rules n (q ∷ rest) rl r f fresh = (
  (let first = f.0 in let other : rl ≢ q = (λ e. fresh (inl e)) in ground (arith, ==→eq rl q)),
  IsForward-update rules (n + 1) rest rl r f.1 (λ i. fresh (inr i)),
)

-- What an insertion has done.
pub record Inserted (rules : ℕ → Rule) (rs : Ruleset) (rl : ℕ) (rules' : ℕ → Rule) (rs' : Ruleset)
    : Type 0 where
  pub room : length rs.items < rs.slots
  pub rule : Rule
  pub memory : rules' ≡ update rules rl rule
  pub appended : rs'.items ≡ rs.items ++ (rl ∷ [])
  pub same_slots : rs'.slots ≡ rs.slots
  pub leads : rule.skip_to ≡ (
      if ltb (rules rl).skip_to (length rs.items + 1)
      then bit_or skipto_adj_flag (length rs.items + 1)
      else (rules rl).skip_to)

or_pair : (ℕ → Rule) × Ruleset → Option ((ℕ → Rule) × Ruleset) → (ℕ → Rule) × Ruleset
or_pair d none = d
or_pair d (some x) = x

pub insert-Inserted :
    (rules rules' : ℕ → Rule) (rs rs' : Ruleset) (rl : ℕ)
    → ruleset_insert rules rs rl ≡ some (rules', rs')
    → Inserted rules rs rl rules' rs'
unfolding ruleset_insert or_pair
insert-Inserted rules rules' rs rs' rl e = elim (Bool-cases (ltb (length rs.items) rs.slots)) [
  | inr full ↦ cc (rw full at e)
  | inl room ↦
      let same = ap (or_pair (rules', rs')) (rw room at e) in
      record {
        room = ground arith;
        rule = inserted_rule (rules rl) (length rs.items) ((rs.idcnt + 1) % u64_mod);
        memory = sym (ap (λ x. x.0) same);
        appended = sym (ap (λ x. x.1.items) same);
        same_slots = sym (ap (λ x. x.1.slots) same);
        leads = refl;
      }
]

pub insert-IsForward :
    (rules rules' : ℕ → Rule) (rs rs' : Ruleset) (rl : ℕ)
    → IsForward rules 0 rs.items
    → ¬ (In rl rs.items)
    → (rules rl).skip_to < skipto_adj_flag
    → rs.slots < skipto_adj_flag
    → Inserted rules rs rl rules' rs'
    → IsForward rules' 0 rs'.items
insert-IsForward rules rules' rs rs' rl f fresh small few i =
    subst (λ xs. IsForward rules' 0 xs) (sym i.appended)
      (subst (λ m. IsForward m 0 (rs.items ++ (rl ∷ []))) (sym i.memory)
        (IsForward-append (update rules rl i.rule) 0 rs.items rl
          (IsForward-update rules 0 rs.items rl i.rule f fresh)
          (rw (==-refl rl) (
            rw (i.leads) (
              omega
                (arith, insert_target (length rs.items) (rules rl).skip_to small, few, i.room))))))
