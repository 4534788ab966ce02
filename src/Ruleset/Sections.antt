-- ===== src/Ruleset/Sections.antt =====
-- What the inspection of a ruleset decides: the groups in order, and in a group the first matching rule
-- that is final, or else the last matching one.
use npf.Prelude.{
  ℕ, zero, suc, ◌+◌, ◌≤◌, ◌≡◌, inl, inr, refl, sym, ap, ◌-◌, ◌∙◌, arith, Bool, true, false, not,
  ◌&&◌, Bool-cases, Option-cases, List, [], ◌∷◌, Option, none, some, if◌then◌else◌, length,
  get_elem?,
}
use npf.Packet.{has_flag}
use npf.Ruleset.{Rule, Ruleset, is_dynamic_group, rule_group, rule_final, rule_in, rule_out}
use npf.Ruleset.Inspect.{
  rule_inspect, rule_reinspect, reinspect_loop, inspect_loop, ruleset_inspect, pfil_in,
}
use npf.Ruleset.Forward.{target}

abbrev pub or_else : Option ℕ → Option ℕ → Option ℕ
or_else none o = o
or_else (some r) o = some r

-- A group and the rules in it.
pub record Section : Type 0 where
  pub group : ℕ
  pub members : List ℕ

abbrev pub size : List Section → ℕ
size [] = 0
size (s ∷ rest) = 1 + length s.members + size rest

-- The mask of a direction.
abbrev pub mask_of : ℕ → ℕ
mask_of di = if has_flag di pfil_in then rule_in else rule_out

or_else-some : (o f : Option ℕ) (r : ℕ) → or_else o (some r) ≡ or_else (or_else o (some r)) f
or_else-some none f r = refl
or_else-some (some q) f r = refl

or_else-none : (o f : Option ℕ) → or_else o f ≡ or_else (or_else o none) f
or_else-none none f = refl
or_else-none (some q) f = refl

module _ (filter : ℕ → Bool) (rules : ℕ → Rule) (di_mask ifid : ℕ) where
  abbrev pub matches : ℕ → Bool
  matches r = rule_inspect filter (rules r) di_mask ifid

  -- The first rule that matches and is final.
  abbrev pub first_final : List ℕ → Option ℕ
  first_final [] = none
  first_final (r ∷ rest) =
      let later = first_final rest in
      if matches r && has_flag (rules r).attr rule_final then some r else later

  -- The last rule that matches.
  abbrev pub last_match : List ℕ → Option ℕ
  last_match [] = none
  last_match (r ∷ rest) =
      let later = last_match rest in or_else later (if matches r then some r else none)

  abbrev pub decision : List ℕ → Option ℕ
  decision rs = or_else (first_final rs) (last_match rs)

  reinspect_from :
      (rs : List ℕ) (final_rl : Option ℕ)
      → reinspect_loop filter rules di_mask ifid rs final_rl ≡ or_else (decision rs) final_rl
  unfolding reinspect_loop
  reinspect_from [] final_rl = refl
  reinspect_from (r ∷ rest) final_rl =
      ground (arith, reinspect_from rest final_rl, reinspect_from rest (some r))

  -- A dynamic group decides by its first matching rule that is final, or else its last matching rule.
  pub rule_reinspect_lem :
      (rg : ℕ) → rule_reinspect filter rules rg di_mask ifid ≡ decision (rules rg).subset
  rule_reinspect_lem rg = ground (arith, reinspect_from (rules rg).subset none)

  -- Rules that are no groups, in the slots from `n` on.
  abbrev pub Members : List ℕ → ℕ → List ℕ → Type 0
  Members items n [] = Unit
  Members items n (r ∷ rest) =
      (get_elem? items n ≡ some r)
      × (has_flag (rules r).attr rule_group ≡ false)
      × (is_dynamic_group (rules r).attr ≡ false)
      × (target rules r ≡ n + 1)
      × Members items (n + 1) rest

  plain_step :
      (items : List ℕ) (r n fuel : ℕ) (final_rl : Option ℕ)
      → get_elem? items n ≡ some r
      → has_flag (rules r).attr rule_group ≡ false
      → is_dynamic_group (rules r).attr ≡ false
      → target rules r ≡ n + 1
      → inspect_loop filter rules items di_mask ifid (suc fuel) n final_rl ≡ (
          if matches r
          then (if has_flag (rules r).attr rule_final
              then some (some r)
              else inspect_loop filter rules items di_mask ifid fuel (n + 1) (some r))
          else inspect_loop filter rules items di_mask ifid fuel (n + 1) final_rl)
  unfolding inspect_loop
  plain_step items r n fuel final_rl e g d t = elim (Bool-cases (matches r)) [
    | inl hit ↦ rw (e, inspect_loop) (rw g (rw hit (rw d refl)))
    | inr miss ↦ rw (e, inspect_loop) (rw g (rw miss (rw t refl)))
  ]

  abbrev after : Option ℕ → Option (Option ℕ) → Option (Option ℕ)
  after none later = later
  after (some r) later = some (some r)

  loop-Members :
      (items ms : List ℕ) (n m fuel total : ℕ) (final_rl : Option ℕ)
      → Members items n ms
      → m ≡ n + length ms
      → total ≡ length ms + fuel
      → inspect_loop filter rules items di_mask ifid total n final_rl
        ≡ after
            (first_final ms)
            (inspect_loop filter rules items di_mask ifid fuel m (or_else (last_match ms) final_rl))
  loop-Members items [] n m fuel total final_rl l e f =
      let here : n ≡ m = omega arith in
      let same : total ≡ fuel = omega arith in rw (here, same) refl
  loop-Members items (r ∷ rest) n m fuel zero final_rl l e f = absurd (omega arith)
  loop-Members items (r ∷ rest) n m fuel (suc total) final_rl l e f =
      let step = plain_step items r n total final_rl l.0 l.1 l.2 l.3 in
      let kept =
        loop-Members items rest (n + 1) m fuel total final_rl l.4 (omega arith) (omega arith) in
      let found =
        loop-Members items rest (n + 1) m fuel total (some r) l.4 (omega arith) (omega arith) in
      let on = λ (o : Option ℕ).
        after (first_final rest) (inspect_loop filter rules items di_mask ifid fuel m o) in
      step ∙ (elim (Bool-cases (matches r)) [
        | inr miss ↦ rw miss (kept ∙ ap on (or_else-none (last_match rest) final_rl))
        | inl hit ↦ elim (Bool-cases (has_flag (rules r).attr rule_final)) [
          | inl last ↦ rw hit (rw last refl)
          | inr more ↦ rw hit (rw more (found ∙ ap on (or_else-some (last_match rest) final_rl r)))
        ]
      ])

  -- The slots from `n` on are the groups in order, each before its rules, and none is final; a rule leads
  -- to the next slot, and a group past its rules.
  abbrev pub LaidOut : List ℕ → ℕ → List Section → Type 0
  LaidOut items n [] = get_elem? items n ≡ none
  LaidOut items n (s ∷ rest) =
      (get_elem? items n ≡ some s.group)
      × (has_flag (rules s.group).attr rule_group ≡ true)
      × (has_flag (rules s.group).attr rule_final ≡ false)
      × (target rules s.group ≡ n + 1 + length s.members)
      × Members items (n + 1) s.members
      × LaidOut items (n + 1 + length s.members) rest

  -- The first group that matches and decides: a dynamic one by the rules that were added to it, and
  -- otherwise by its own.
  abbrev pub sections_decision : List Section → Option ℕ
  sections_decision [] = none
  sections_decision (s ∷ rest) =
      let later = sections_decision rest in
      let own = or_else (decision s.members) later in
      if not (matches s.group)
      then later
      else if is_dynamic_group (rules s.group).attr
      then or_else (decision (rules s.group).subset) own
      else own

  barrier_step :
      (items : List ℕ) (g n fuel r : ℕ)
      → get_elem? items n ≡ some g
      → has_flag (rules g).attr rule_group ≡ true
      → inspect_loop filter rules items di_mask ifid (suc fuel) n (some r) ≡ some (some r)
  unfolding inspect_loop
  barrier_step items g n fuel r e k = rw (e, inspect_loop) (rw k refl)

  group_step :
      (items : List ℕ) (g n fuel : ℕ)
      → get_elem? items n ≡ some g
      → has_flag (rules g).attr rule_group ≡ true
      → has_flag (rules g).attr rule_final ≡ false
      → inspect_loop filter rules items di_mask ifid (suc fuel) n none ≡ (
          if not (matches g)
          then inspect_loop filter rules items di_mask ifid fuel (target rules g) none
          else if is_dynamic_group (rules g).attr
          then after
              (decision (rules g).subset)
              (inspect_loop filter rules items di_mask ifid fuel (n + 1) none)
          else inspect_loop filter rules items di_mask ifid fuel (n + 1) none)
  unfolding inspect_loop
  group_step items g n fuel e k f = elim (Bool-cases (matches g)) [
    | inr miss ↦ rw (e, inspect_loop) (rw k (rw miss refl))
    | inl hit ↦ elim (Bool-cases (is_dynamic_group (rules g).attr)) [
      | inr plain ↦ rw (e, inspect_loop) (rw k (rw hit (rw plain (rw f refl))))
      | inl dynamic ↦
          let same = rule_reinspect_lem g in
          elim (Option-cases (decision (rules g).subset)) [
            | inl none_added ↦
                rw (e, inspect_loop)
                  (rw k (rw hit (rw dynamic (rw (same ∙ none_added) (rw none_added (rw f refl))))))
            | inr (q, added) ↦
                rw (e, inspect_loop)
                  (rw k (rw hit (rw dynamic (rw (same ∙ added) (rw added refl)))))
          ]
    ]
  ]

  after-some : (o later : Option ℕ) → after o (some later) ≡ some (or_else o later)
  after-some none later = refl
  after-some (some r) later = refl

  or_else_assoc : (a b c : Option ℕ) → or_else a (or_else b c) ≡ or_else (or_else a b) c
  or_else_assoc none b c = refl
  or_else_assoc (some r) b c = refl

  sections_loop :
      (items : List ℕ) (ss : List Section) (n fuel : ℕ) (final_rl : Option ℕ)
      → LaidOut items n ss
      → size ss ≤ fuel
      → inspect_loop filter rules items di_mask ifid fuel n final_rl
        ≡ some (or_else final_rl (sections_decision ss))
  unfolding inspect_loop
  sections_loop items [] n zero none l h = rw (l, inspect_loop) refl
  sections_loop items [] n zero (some r) l h = rw (l, inspect_loop) refl
  sections_loop items [] n (suc fuel) none l h = rw (l, inspect_loop) refl
  sections_loop items [] n (suc fuel) (some r) l h = rw (l, inspect_loop) refl
  sections_loop items (s ∷ rest) n zero final_rl l h = absurd (omega arith)
  sections_loop items (s ∷ rest) n (suc fuel) (some r) l h =
      barrier_step items s.group n fuel r l.0 l.1
  sections_loop items (s ∷ rest) n (suc fuel) none l h =
      let m = n + 1 + length s.members in
      let left = fuel - length s.members in
      let later = sections_loop items rest m fuel none l.5 (omega arith) in
      let own : inspect_loop filter rules items di_mask ifid fuel (n + 1) none
          ≡ some (or_else (decision s.members) (sections_decision rest)) =
        loop-Members items s.members (n + 1) m left fuel none l.4 refl (omega arith)
        ∙ (ap (after (first_final s.members)) (
              sections_loop items rest m left (or_else (last_match s.members) none) l.5
                (omega arith))
            ∙ (after-some (first_final s.members) _
                ∙ ap some (
                    ap (or_else (first_final s.members))
                      (sym (or_else-none (last_match s.members) (sections_decision rest)))
                    ∙ or_else_assoc (first_final s.members) (last_match s.members)
                        (sections_decision rest)))) in
      group_step items s.group n fuel l.0 l.1 l.2 ∙ (elim (Bool-cases (matches s.group)) [
        | inr miss ↦
            rw miss (ap (λ t. inspect_loop filter rules items di_mask ifid fuel t none) l.3 ∙ later)
        | inl hit ↦ elim (Bool-cases (is_dynamic_group (rules s.group).attr)) [
          | inr plain ↦ rw hit (rw plain own)
          | inl dynamic ↦ rw hit (
              rw dynamic (
                ap (after (decision (rules s.group).subset)) own
                ∙ after-some (decision (rules s.group).subset) _))
        ]
      ])

-- The inspection of a packet, with as many steps as there are groups and rules in them, by a ruleset
-- that is laid out as groups, each before its rules, none of them final and each leading past its
-- rules, gives what the first group that matches and has a matching rule decides: by the rules added to
-- it, if it is dynamic, and else by its own; and among these, the first matching rule that is final, or
-- else the last matching one.
pub ruleset_inspect-sections_decision :
    (filter : ℕ → Bool) (rules : ℕ → Rule) (rs : Ruleset) (di ifid fuel : ℕ) (ss : List Section)
    → LaidOut filter rules (mask_of di) ifid rs.items 0 ss
    → size ss ≤ fuel
    → ruleset_inspect filter rules rs di ifid fuel
      ≡ some (sections_decision filter rules (mask_of di) ifid ss)
unfolding ruleset_inspect
ruleset_inspect-sections_decision filter rules rs di ifid fuel ss l h =
    sections_loop filter rules (mask_of di) ifid rs.items ss 0 fuel none l h
