-- ===== src/Ruleset/Tests.antt =====
-- The theorems on rulesets at concrete rules.
use Prim.Native.String.{String}
use npf.Prelude.{
  ℕ, ◌≡◌, refl, arith, Bool, false, List, [], ◌∷◌, Option, none, some, ◌==◌, if◌then◌else◌, In, ℤ,
  pos, length, name_eq,
}
use npf.Ruleset.{Rule, Ruleset, ruleset_create}
use npf.Ruleset.Config.{
  RuleErrno, ruleset_insert, ruleset_lookup, lookup_in, ruleset_add, ruleset_remove,
}
use npf.Ruleset.Load.{Loaded, loaded, mk_rules, load_loop}
use npf.Ruleset.Inspect.{ruleset_inspect}
use npf.Ruleset.Ends.{AreFresh, ids, ruleset_inspect-mk_rules}
use npf.Ruleset.Sections.{
  Section, LaidOut, sections_decision, mask_of, ruleset_inspect-sections_decision,
}
use npf.Ruleset.Priority.{AreOrdered, Changes, done, later, add, remove, Changes-AreOrdered}
use npf.Ruleset.AddRemove.{ruleset_remove-ruleset_add}

abbrev rule : ℕ → ℕ → String → ℤ → Rule
rule attr skip_to name priority = record {
  attr = attr;
  ifid = 0;
  skip_to = skip_to;
  code = none;
  natp = none;
  rproc = none;
  subset = [];
  priority = priority;
  parent = none;
  id = 0;
  name = name;
  key = [];
}

-- Two groups: a dynamic one, and one with a rule that passes and a final one that blocks.
abbrev memory : ℕ → Rule
memory r =
    if r == 0
    then rule 0x30000042 0 "blocked" (pos 0)
    else if r == 1
    then rule 0x30000002 4 "" (pos 0)
    else if r == 2
    then rule 0x30000001 0 "" (pos 0)
    else if r == 3
    then rule 0x30000004 0 "" (pos 0)
    else rule 0x30000044 0 "" (pos 5)

abbrev config : List (Option String × ℕ)
config = (some "blocked", 0) ∷ (none, 1) ∷ (none, 2) ∷ (none, 3) ∷ []

abbrev no_filter : ℕ → Bool
no_filter code = false

abbrev memory_of : Loaded → ℕ → Rule
memory_of (loaded rules rs) = rules
memory_of Loaded.e2big = memory
memory_of Loaded.eexist = memory
memory_of Loaded.out_of_slots = memory

abbrev ruleset_of : Loaded → Ruleset
ruleset_of (loaded rules rs) = rs
ruleset_of Loaded.e2big = ruleset_create 0
ruleset_of Loaded.eexist = ruleset_create 0
ruleset_of Loaded.out_of_slots = ruleset_create 0

abbrev rules : ℕ → Rule
rules = memory_of (mk_rules memory config)

abbrev rs : Ruleset
rs = ruleset_of (mk_rules memory config)

config_loaded : mk_rules memory config ≡ loaded rules rs
unfolding mk_rules load_loop ruleset_insert lookup_in name_eq
config_loaded = refl

config-AreFresh : AreFresh memory [] (ids config)
config-AreFresh = ground arith

ruleset_inspect-mk_rules_example :
    (answer : Option ℕ) × (ruleset_inspect no_filter rules rs 1 7 (length rs.items) ≡ some answer)
ruleset_inspect-mk_rules_example =
    ruleset_inspect-mk_rules no_filter memory rules config rs 1 7 config-AreFresh config_loaded

abbrev sections : List Section
sections = record { group = 0; members = [] } ∷ record { group = 1; members = 2 ∷ 3 ∷ [] } ∷ []

sections-LaidOut : LaidOut no_filter rules (mask_of 1) 7 rs.items 0 sections
unfolding mk_rules load_loop ruleset_insert lookup_in name_eq
sections-LaidOut = (
  refl,
  refl,
  refl,
  refl,
  tt,
  (refl, refl, refl, refl, ((refl, refl, refl, refl, (refl, refl, refl, refl, tt))), refl),
)

ruleset_inspect-sections_decision_example :
    ruleset_inspect no_filter rules rs 1 7 4
    ≡ some (sections_decision no_filter rules (mask_of 1) 7 sections)
ruleset_inspect-sections_decision_example =
    ruleset_inspect-sections_decision no_filter rules rs 1 7 4 sections sections-LaidOut
      (omega arith)

no_subsets : (rg : ℕ) → (memory rg).subset ≡ []
no_subsets rg = ground arith

abbrev dynamic_only : Ruleset
dynamic_only = record {
  all = 0 ∷ [];
  dynamic = 0 ∷ [];
  gc = [];
  idcnt = 1;
  slots = 1;
  items = 0 ∷ [];
}

group_found : ruleset_lookup memory dynamic_only "blocked" ≡ some 0
unfolding lookup_in name_eq
group_found = refl

-- The rule 4 is added to the group, and removed.
abbrev with_rule : Option RuleErrno × (ℕ → Rule) × Ruleset
with_rule = ruleset_add memory dynamic_only "blocked" 4

abbrev without_rule : Option RuleErrno × (ℕ → Rule) × Ruleset
without_rule = ruleset_remove with_rule.1 with_rule.2 "blocked" with_rule.2.idcnt

ruleset_remove-ruleset_add_example :
    (with_rule.0 ≡ none)
    × (without_rule.0 ≡ none)
    × ((without_rule.1 0).subset ≡ [])
    × (without_rule.2.all ≡ 0 ∷ [])
    × (without_rule.2.gc ≡ 4 ∷ [])
ruleset_remove-ruleset_add_example =
    ruleset_remove-ruleset_add memory dynamic_only "blocked" 4 0 refl group_found (omega arith)
      (λ i. absurd i) (λ q i. absurd i)

ungrouped : (q : ℕ) → ¬ (In 4 (memory q).subset)
ungrouped q = ground arith

added_and_removed : Changes memory dynamic_only without_rule.1 without_rule.2
added_and_removed =
    later (later done (add "blocked" 4 ungrouped refl refl))
      (remove "blocked" with_rule.2.idcnt refl refl)

Changes-AreOrdered_example : AreOrdered without_rule.1
Changes-AreOrdered_example = Changes-AreOrdered memory dynamic_only no_subsets added_and_removed
