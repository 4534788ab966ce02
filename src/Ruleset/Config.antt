-- ===== src/Ruleset/Config.antt =====
-- The operations of src/kern/npf_ruleset.c on the rules of a ruleset, and on the rules of its dynamic
-- groups. Each gives the memory of the rules and the ruleset back.
use Prim.Native.String.{String}
use npf.Prelude.{
  signed32, ℕ, zero, suc, ◌+◌, ◌%◌, Bool, true, false, not, ◌&&◌, List, [], ◌∷◌, ◌++◌, Option, none,
  some, ◌==◌, if◌then◌else◌, bit_and, bit_or, not32, length, without, ltb, update, ℤ, pos, negsuc,
  ltb_ℤ, u32_mod, u64_mod,
}
use npf.Ruleset.{
  Rule, Ruleset, is_dynamic_group, is_dynamic_rule, rule_dynamic, rule_privmask, skipto_adj_flag,
}
use mathlib.Core.Logic.{ite}
use npf.Prelude.{name_eq}

-- What the functions return as an `errno`.
pub data RuleErrno : Type 0 where
  einval esrch enoent : RuleErrno

-- What an insertion in the slot `n` makes of the rule.
abbrev pub inserted_rule : Rule → ℕ → ℕ → Rule
inserted_rule r n id = record r {
  attr = if is_dynamic_group r.attr then r.attr else bit_and r.attr (not32 rule_dynamic);
  id = id;
  skip_to = if ltb r.skip_to (n + 1) then bit_or skipto_adj_flag (n + 1) else r.skip_to;
}

-- `npf_ruleset_insert`; `none` is a write behind the slots.
unfoldable pub ruleset_insert : (ℕ → Rule) → Ruleset → ℕ → Option ((ℕ → Rule) × Ruleset)
ruleset_insert rules rs rl =
    let n = length rs.items in
    let id = (rs.idcnt + 1) % u64_mod in
    if ltb n rs.slots
    then some (
      update rules rl (inserted_rule (rules rl) n id),
      record rs {
        all = rl ∷ rs.all;
        dynamic = if is_dynamic_group (rules rl).attr then rl ∷ rs.dynamic else rs.dynamic;
        items = rs.items ++ (rl ∷ []);
        idcnt = id;
      },
    )
    else none

-- `npf_ruleset_lookup`
unfoldable pub lookup_in : (ℕ → Rule) → String → List ℕ → Option ℕ
lookup_in rules name [] = none
lookup_in rules name (rg ∷ rest) =
    let later = lookup_in rules name rest in ite (name_eq (rules rg).name name) (some rg) later

abbrev pub ruleset_lookup : (ℕ → Rule) → Ruleset → String → Option ℕ
ruleset_lookup rules rs name = lookup_in rules name rs.dynamic

-- The place of a rule behind those whose priority is not greater.
unfoldable pub insert_by_priority : (ℕ → Rule) → ℕ → List ℕ → List ℕ
insert_by_priority rules rl [] = rl ∷ []
insert_by_priority rules rl (it ∷ rest) =
    let later = insert_by_priority rules rl rest in
    if ltb_ℤ (rules rl).priority (rules it).priority then rl ∷ it ∷ rest else it ∷ later

-- `NPF_PRI_FIRST`, which is -2.
abbrev pub is_pri_first : ℤ → Bool
is_pri_first (pos n) = false
is_pri_first (negsuc n) = n == 1

-- A negative priority is a command, and reset to zero.
abbrev pub reset_priority : ℤ → ℤ
reset_priority (pos n) = pos n
reset_priority (negsuc n) = pos 0

abbrev pub put_subset : (ℕ → Rule) → ℕ → List ℕ → ℕ → Rule
put_subset rules rg subset = update rules rg (record (rules rg) { subset = subset })

-- What an addition to the group `rg` makes of the rule.
abbrev pub added_rule : Rule → ℕ → ℕ → Rule
added_rule r rg id = record r { id = id; parent = some rg; priority = reset_priority r.priority }

-- The rules of a group with one more, by the priority that it was given.
abbrev pub placed : (ℕ → Rule) → ℤ → ℕ → List ℕ → List ℕ
placed rules priocmd rl subset =
    if is_pri_first priocmd then rl ∷ subset else insert_by_priority rules rl subset

-- `npf_ruleset_add`
unfoldable pub ruleset_add :
    (ℕ → Rule) → Ruleset → String → ℕ → Option RuleErrno × (ℕ → Rule) × Ruleset
ruleset_add rules rs rname rl =
    let r = rules rl in
    if not (is_dynamic_rule r.attr)
    then (some einval, rules, rs)
    else elim (ruleset_lookup rules rs rname) [
      | none ↦ (some esrch, rules, rs)
      | some rg ↦
          let id = (rs.idcnt + 1) % u64_mod in
          let made = update rules rl (added_rule r rg id) in
          (
            none,
            put_subset made rg (placed made r.priority rl (made rg).subset),
            record rs { idcnt = id; all = rl ∷ rs.all },
          )
    ]

-- The first rule of a group with the number.
unfoldable pub find_id : (ℕ → Rule) → ℕ → List ℕ → Option ℕ
find_id rules id [] = none
find_id rules id (rl ∷ rest) =
    let later = find_id rules id rest in if (rules rl).id == id then some rl else later

-- `memcmp` of the first bytes.
unfoldable pub same_bytes : List ℕ → List ℕ → Bool
same_bytes [] key = true
same_bytes (b ∷ bytes) [] = false
same_bytes (b ∷ bytes) (c ∷ key) = b == c && same_bytes bytes key

-- The last rule of a group with the key, or `last`.
unfoldable pub find_key : (ℕ → Rule) → List ℕ → List ℕ → Option ℕ → Option ℕ
find_key rules key [] last = last
find_key rules key (rl ∷ rest) last =
    let found = find_key rules key rest (some rl) in
    let kept = find_key rules key rest last in if same_bytes key (rules rl).key then found else kept

-- `npf_ruleset_unlink` from the group, and the insertion in the list of those to be destroyed.
unfoldable pub ruleset_unlink : (ℕ → Rule) → Ruleset → ℕ → ℕ → (ℕ → Rule) × Ruleset
ruleset_unlink rules rs rg rl = (
  put_subset rules rg (without rl (rules rg).subset),
  record rs { all = without rl rs.all; gc = rl ∷ rs.gc },
)

-- `npf_ruleset_remove`
unfoldable pub ruleset_remove :
    (ℕ → Rule) → Ruleset → String → ℕ → Option RuleErrno × (ℕ → Rule) × Ruleset
ruleset_remove rules rs rname id = elim (ruleset_lookup rules rs rname) [
  | none ↦ (some esrch, rules, rs)
  | some rg ↦ elim (find_id rules id (rules rg).subset) [
    | none ↦ (some enoent, rules, rs)
    | some rl ↦ let left = ruleset_unlink rules rs rg rl in (none, left.0, left.1)
  ]
]

-- `npf_ruleset_remkey`, of a key of 1 to 32 bytes.
unfoldable pub ruleset_remkey :
    (ℕ → Rule) → Ruleset → String → List ℕ → Option RuleErrno × (ℕ → Rule) × Ruleset
ruleset_remkey rules rs rname key = elim (ruleset_lookup rules rs rname) [
  | none ↦ (some esrch, rules, rs)
  | some rg ↦ elim (find_key rules key (rules rg).subset none) [
    | none ↦ (some enoent, rules, rs)
    | some rl ↦ let left = ruleset_unlink rules rs rg rl in (none, left.0, left.1)
  ]
]

-- The loop of `npf_ruleset_flush`.
unfoldable pub flush_rules : List ℕ → Ruleset → Ruleset
flush_rules [] rs = rs
flush_rules (rl ∷ rest) rs =
    flush_rules rest (record rs { all = without rl rs.all; gc = rl ∷ rs.gc })

-- `npf_ruleset_flush`
unfoldable pub ruleset_flush :
    (ℕ → Rule) → Ruleset → String → Option RuleErrno × (ℕ → Rule) × Ruleset
ruleset_flush rules rs rname = elim (ruleset_lookup rules rs rname) [
  | none ↦ (some esrch, rules, rs)
  | some rg ↦
      (none, put_subset rules rg [], record (flush_rules (rules rg).subset rs) { idcnt = 0 })
]

-- `npf_ruleset_gc`: the rules that are freed, in order.
unfoldable pub ruleset_gc : Ruleset → List ℕ × Ruleset
ruleset_gc rs = (rs.gc, record rs { gc = [] })

-- `npf_ruleset_findnat`, where `getid` is the number of a policy.
unfoldable pub findnat_in : (ℕ → Rule) → (ℕ → ℕ) → ℕ → List ℕ → Option ℕ
findnat_in rules getid id [] = none
findnat_in rules getid id (rl ∷ rest) =
    let later = findnat_in rules getid id rest in
    elim (rules rl).natp [ none ↦ later | some np ↦ if getid np == id then some np else later ]

abbrev pub ruleset_findnat : (ℕ → Rule) → Ruleset → (ℕ → ℕ) → ℕ → Option ℕ
ruleset_findnat rules rs getid id = findnat_in rules getid id rs.all

-- What the description of a rule holds; absent fields are `none`, or the default of the call.
pub record RuleDict : Type 0 where
  pub name : Option String
  pub attr : ℕ
  pub prio : ℕ
  pub skip_to : ℕ
  pub ifname : Option String
  pub key : Option (List ℕ)

abbrev zeros : ℕ → List ℕ
zeros zero = []
zeros (suc n) = 0 ∷ zeros n

-- `memcpy` of the key into the zeroed field.
abbrev pub key_field : List ℕ → List ℕ → List ℕ
key_field [] field = field
key_field (b ∷ key) [] = []
key_field (b ∷ key) (c ∷ field) = b ∷ key_field key field

abbrev pub string_or : Option String → String
string_or none = ""
string_or (some name) = name

-- `npf_rule_alloc`, where `ifmap_register` gives an interface its number, and a name fits its field.
unfoldable pub rule_alloc : (String → ℕ) → RuleDict → Option Rule
rule_alloc ifmap_register rule =
    let attr = bit_and (rule.attr % u32_mod) (not32 rule_privmask) in
    let dynamic = is_dynamic_rule attr in
    let ifid : ℕ = elim rule.ifname [ none ↦ 0 | some ifname ↦ ifmap_register ifname ] in
    let named : Rule = record {
      attr = attr;
      ifid = ifid;
      skip_to = if dynamic then 0 else rule.skip_to % u32_mod;
      code = none;
      natp = none;
      rproc = none;
      subset = [];
      priority = if dynamic then signed32 (rule.prio % u32_mod) else pos 0;
      parent = none;
      id = 0;
      name = string_or rule.name;
      key = zeros 32;
    } in
    let made : Option Rule = elim rule.key [
      | none ↦ some named
      | some key ↦
          if ltb 32 (length key)
          then none
          else some (record named { key = key_field key (zeros 32) })
    ] in
    elim rule.ifname [ none ↦ made | some ifname ↦ if ifid == 0 then none else made ]
