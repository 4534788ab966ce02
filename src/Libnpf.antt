-- ===== src/Libnpf.antt =====
-- The rules of a configuration, src/libnpf/npf.c: the nested rules and groups are turned into one array
-- with marks that lead past the rules of a group.
pub mod Flat
mod Tests
use npf.Prelude.{ℕ, ◌+◌, List, [], ◌∷◌, ◌++◌, Option, none, some, length, update}

-- The rules of a list, each a number, with its "subrules"; a rule without them has the empty list.
pub data Rules : Type 0 where
  nil : Rules
  entry : ℕ → Rules → Rules → Rules

-- The fields of `nl_config_t` for the array, and the "skip-to" of each rule.
pub record Config : Type 0 where
  pub rule_list : List ℕ
  pub skip_to : ℕ → Option ℕ

-- The mark that is added after the subrules have been processed.
abbrev pub with_mark : Config → ℕ → Config
with_mark ncf id = record ncf { skip_to = update ncf.skip_to id (some (length ncf.rule_list)) }

-- A rule is added to the array.
abbrev pub with_rule : Config → ℕ → Config
with_rule ncf id = record ncf { rule_list = ncf.rule_list ++ (id ∷ []) }

-- `_npf_rules_process`
unfoldable pub rules_process : Config → Rules → Config
rules_process ncf nil = ncf
rules_process ncf (entry id nil rest) = rules_process (with_rule ncf id) rest
rules_process ncf (entry id (entry i subrules later) rest) =
    rules_process (with_mark (rules_process (with_rule ncf id) (entry i subrules later)) id) rest
