-- ===== src/Libnpf/Tests.antt =====
-- The theorem on nested rules at a concrete configuration.
use npf.Prelude.{◌≡◌, arith, [], ◌∷◌, none}
use npf.Libnpf.{Rules, nil, entry, rules_process}
use npf.Libnpf.Flat.{AreDistinct, AreMarked, rules_process-AreMarked}

-- A group of two rules, and a rule after it.
abbrev nested : Rules
nested = entry 1 (entry 2 nil (entry 3 nil nil)) (entry 4 nil nil)

nested-AreDistinct : AreDistinct nested
nested-AreDistinct = (
  (λ e. omega (arith, e), tt, (λ e. omega (arith, e), tt, tt)),
  (λ e. omega (arith, e), tt, tt),
  ((λ e. omega (arith, e), tt, tt), tt, ((λ e. omega (arith, e), tt, tt), tt, tt)),
  (tt, (λ e. omega (arith, e), tt, tt), tt, tt, (tt, tt, tt, tt, tt)),
  (tt, tt, tt, tt, tt),
)

rules_process-AreMarked_example :
    ((rules_process (record { rule_list = []; skip_to = λ id. none }) nested).rule_list
      ≡ 1 ∷ 2 ∷ 3 ∷ 4 ∷ [])
    × AreMarked
        (rules_process (record { rule_list = []; skip_to = λ id. none }) nested).skip_to
        0
        nested
rules_process-AreMarked_example = rules_process-AreMarked nested nested-AreDistinct
