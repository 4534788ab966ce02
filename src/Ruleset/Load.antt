-- ===== src/Ruleset/Load.antt =====
-- The loading of the rules of a configuration, `npf_mk_rules` of src/kern/npf_ctl.c, from rules that are
-- made: their names in the configuration, and their places.
use Prim.Native.String.{String}
use npf.Prelude.{ℕ, ◌*◌, Bool, false, List, [], ◌∷◌, Option, none, some, if◌then◌else◌, ltb, length}
use npf.Ruleset.{Rule, Ruleset, ruleset_create}
use npf.Ruleset.Config.{ruleset_insert, ruleset_lookup}
use npf.Ruleset.Inspect.{is_some}

abbrev pub max_rules : ℕ
max_rules = 1024 * 1024

-- `out_of_slots` is a write behind the slots of the ruleset.
pub data Loaded : Type 0 where
  e2big eexist out_of_slots : Loaded
  loaded : (ℕ → Rule) → Ruleset → Loaded

abbrev pub is_taken : (ℕ → Rule) → Ruleset → Option String → Bool
is_taken rules rs none = false
is_taken rules rs (some name) = is_some (ruleset_lookup rules rs name)

-- The loop of `npf_mk_rules`.
unfoldable pub load_loop : (ℕ → Rule) → Ruleset → List (Option String × ℕ) → Loaded
load_loop rules rs [] = loaded rules rs
load_loop rules rs ((name, rl) ∷ rest) =
    if is_taken rules rs name then eexist else elim (ruleset_insert rules rs rl) [
      | none ↦ out_of_slots
      | some (rules', rs') ↦ load_loop rules' rs' rest
    ]

-- `npf_mk_rules`
unfoldable pub mk_rules : (ℕ → Rule) → List (Option String × ℕ) → Loaded
mk_rules rules rls =
    let nitems = length rls in
    if ltb max_rules nitems then e2big else load_loop rules (ruleset_create nitems) rls
