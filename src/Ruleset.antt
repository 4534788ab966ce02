-- ===== src/Ruleset.antt =====
-- Rulesets, src/kern/npf_ruleset.c: the rules, and the ruleset that orders them. A pointer to a rule is
-- a number, and the memory of the rules a function. A list linked by `r_next` is a list.
pub mod Inspect
pub mod Config
pub mod Load
pub mod Forward
pub mod Ends
pub mod Sections
pub mod Priority
pub mod AddRemove
mod Tests
use Prim.Native.String.{String}
use npf.Prelude.{
  ℕ, Bool, true, false, not, ◌&&◌, List, [], Option, none, ◌==◌, if◌then◌else◌, bit_and, ℤ, ◌^◌,
  ◌-◌,
}

-- The attributes of src/kern/npf.h.
abbrev pub rule_pass : ℕ
rule_pass = 0x00000001

abbrev pub rule_group : ℕ
rule_group = 0x00000002

abbrev pub rule_final : ℕ
rule_final = 0x00000004

abbrev pub rule_dynamic : ℕ
rule_dynamic = 0x00000040

abbrev pub dynamic_group : ℕ
dynamic_group = 0x00000042

abbrev pub rule_in : ℕ
rule_in = 0x10000000

abbrev pub rule_out : ℕ
rule_out = 0x20000000

abbrev pub rule_dimask : ℕ
rule_dimask = 0x30000000

abbrev pub rule_privmask : ℕ
rule_privmask = 0x0f000000

-- `NPF_RULE_KEEPNAT`
abbrev pub rule_keepnat : ℕ
rule_keepnat = 0x01000000

abbrev pub skipto_adj_flag : ℕ
skipto_adj_flag = 2 ^ 31

abbrev pub skipto_mask : ℕ
skipto_mask = 2 ^ 31 - 1

-- `npf_rule_t`. The code, the NAT policy and the procedure are pointers. A name is its characters, a
-- key its bytes.
pub record Rule : Type 0 where
  pub attr : ℕ
  pub ifid : ℕ
  pub skip_to : ℕ
  pub code : Option ℕ
  pub natp : Option ℕ
  pub rproc : Option ℕ
  pub subset : List ℕ
  pub priority : ℤ
  pub parent : Option ℕ
  pub id : ℕ
  pub name : String
  pub key : List ℕ

-- `npf_ruleset_t`: `items` are the rules in the slots, in order.
pub record Ruleset : Type 0 where
  pub all : List ℕ
  pub dynamic : List ℕ
  pub gc : List ℕ
  pub idcnt : ℕ
  pub slots : ℕ
  pub items : List ℕ

-- `NPF_DYNAMIC_GROUP_P`
abbrev pub is_dynamic_group : ℕ → Bool
is_dynamic_group attr = bit_and attr dynamic_group == dynamic_group

-- `NPF_DYNAMIC_RULE_P`
abbrev pub is_dynamic_rule : ℕ → Bool
is_dynamic_rule attr = bit_and attr dynamic_group == rule_dynamic

-- `npf_ruleset_create`
abbrev pub ruleset_create : ℕ → Ruleset
ruleset_create slots = record {
  all = [];
  dynamic = [];
  gc = [];
  idcnt = 0;
  slots = slots;
  items = [];
}
