-- ===== src/Ruleset/Ends.antt =====
-- The inspection of a ruleset that `npf_mk_rules` loads ends.
use Prim.Native.String.{String}
use npf.Ruleset.Load.{max_rules, loaded, is_taken, load_loop, mk_rules}
use npf.Prelude.{
  ℕ, ◌<◌, ◌≡◌, ◌≢◌, ◌⊎◌, inl, inr, sym, subst, arith, Bool, Bool-cases, Option-cases, List, [], ◌∷◌,
  ◌++◌, Option, none, some, ==→eq, ltb, if◌then◌else◌, length, update, In,
}
use npf.Packet.{has_flag}
use npf.Ruleset.{Rule, Ruleset, ruleset_create, rule_in, rule_out, skipto_adj_flag}
use npf.Ruleset.Inspect.{ruleset_inspect, pfil_in}
use npf.Ruleset.Config.{ruleset_insert}
use npf.Ruleset.Forward.{IsForward, insert-Inserted, insert-IsForward, loop_ends}

loaded_rules : {m m' : ℕ → Rule} {rs rs' : Ruleset} → loaded m rs ≡ loaded m' rs' → m ≡ m'
loaded_rules e = cc

loaded_rs : {m m' : ℕ → Rule} {rs rs' : Ruleset} → loaded m rs ≡ loaded m' rs' → rs ≡ rs'
loaded_rs e = cc

abbrev pub ids : List (Option String × ℕ) → List ℕ
ids [] = []
ids ((name, rl) ∷ rest) = rl ∷ ids rest

-- None of the rules is in the slots yet, each is there once, and each leads to a slot below 2 ^ 31.
abbrev pub AreFresh : (ℕ → Rule) → List ℕ → List ℕ → Type 0
AreFresh rules items [] = Unit
AreFresh rules items (rl ∷ rest) =
    (¬ (In rl items))
    × (¬ (In rl rest))
    × ((rules rl).skip_to < skipto_adj_flag)
    × AreFresh rules items rest

In-append : (x rl : ℕ) (items : List ℕ) → In x (items ++ (rl ∷ [])) → In x items ⊎ (x ≡ rl)
In-append x rl [] (inl e) = inr e
In-append x rl [] (inr i) = absurd i
In-append x rl (q ∷ items) (inl e) = inl (inl e)
In-append x rl (q ∷ items) (inr i) = elim (In-append x rl items i) [
  | inl j ↦ inl (inr j)
  | inr e ↦ inr e
]

AreFresh-later :
    (rules : ℕ → Rule) (items rest : List ℕ) (rl : ℕ) (r : Rule)
    → AreFresh rules items rest
    → ¬ (In rl rest)
    → AreFresh (update rules rl r) (items ++ (rl ∷ [])) rest
AreFresh-later rules items [] rl r a fresh = tt
AreFresh-later rules items (q ∷ rest) rl r a fresh =
    let other : q ≢ rl = (λ e. fresh (inl (sym e))) in
    (
      (λ i. elim (In-append q rl items i) [ inl j ↦ a.0 j | inr e ↦ other e ]),
      a.1,
      (let small = a.2 in ground (arith, ==→eq rl q)),
      AreFresh-later rules items rest rl r a.3 (λ i. fresh (inr i)),
    )

load_loop-IsForward :
    (rules rules' : ℕ → Rule) (rs rs' : Ruleset) (rls : List (Option String × ℕ))
    → IsForward rules 0 rs.items
    → rs.slots < skipto_adj_flag
    → AreFresh rules rs.items (ids rls)
    → load_loop rules rs rls ≡ loaded rules' rs'
    → IsForward rules' 0 rs'.items
unfolding load_loop
load_loop-IsForward rules rules' rs rs' [] f few a e =
    subst (λ x. IsForward rules' 0 x.items) (loaded_rs e)
      (subst (λ x. IsForward x 0 rs.items) (loaded_rules e) f)
load_loop-IsForward rules rules' rs rs' ((name, rl) ∷ rest) f few a e =
    elim (Bool-cases (is_taken rules rs name)) [
      | inl taken ↦ cc (rw taken at e)
      | inr free ↦ elim (Option-cases (ruleset_insert rules rs rl)) [
        | inl full ↦ cc (rw full at (rw free at e))
        | inr ((rules1, rs1), made) ↦
            let i = insert-Inserted rules rules1 rs rs1 rl made in
            load_loop-IsForward rules1 rules' rs1 rs' rest
              (insert-IsForward rules rules1 rs rs1 rl f a.0 a.2 few i)
              (omega (arith, few, i.same_slots))
              (subst (λ x. AreFresh rules1 x (ids rest)) (sym i.appended)
                (subst (λ x. AreFresh x (rs.items ++ (rl ∷ [])) (ids rest)) (sym i.memory)
                  (AreFresh-later rules rs.items (ids rest) rl i.rule a.3 a.1)))
              (rw made at (rw free at e))
      ]
    ]

module _ (filter : ℕ → Bool) where
  -- The inspection of every packet by a ruleset that is loaded from different rules, each of which leads
  -- to a slot below 2 ^ 31 or to none, ends in as many steps as the ruleset has rules.
  pub ruleset_inspect-mk_rules :
      (rules rules' : ℕ → Rule) (rls : List (Option String × ℕ)) (rs : Ruleset) (di ifid : ℕ)
      → AreFresh rules [] (ids rls)
      → mk_rules rules rls ≡ loaded rules' rs
      → (answer : Option ℕ) × (ruleset_inspect filter rules' rs di ifid (length rs.items)
          ≡ some answer)
  unfolding mk_rules ruleset_inspect
  ruleset_inspect-mk_rules rules rules' rls rs di ifid a e =
      elim (Bool-cases (ltb max_rules (length rls))) [
        | inl many ↦ cc (rw many at e)
        | inr few ↦
            loop_ends filter rules' rs.items (if has_flag di pfil_in then rule_in else rule_out)
              ifid (length rs.items) 0 none
              (load_loop-IsForward rules rules' (ruleset_create (length rls)) rs rls tt
                (ground arith) a (rw few at e))
              (omega arith)
      ]
