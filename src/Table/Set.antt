-- ===== src/Table/Set.antt =====
-- The sets of tables of src/kern/npf_tableset.c: the slots by id, and the tables that they refer to in
-- memory, each with the count of the references to it.
use Prim.Native.String.{String}
use npf.Prelude.{
  ℕ, zero, suc, ◌+◌, Bool, true, false, not, ◌&&◌, ◌||◌, List, ◌∷◌, Option, none, some, ◌==◌,
  if◌then◌else◌, ltb, update, add32, sub32, name_eq,
}
use npf.Thmap.{Thmap}
use npf.Lpm.{Lpm}
use npf.Table.{
  TableType, ipset, lpm, const, ifaddr, TableErrno, einval, eexist, enametoolong, Table,
}

-- `npf_tableset_t`: an empty slot is `none`.
pub record Tableset : Type 0 where
  pub nitems : ℕ
  pub slots : ℕ → Option ℕ

-- `npf_tableset_create`
abbrev pub tableset_create : ℕ → Tableset
tableset_create nitems = record { nitems = nitems; slots = λ tid. none }

-- `npf_tableset_getbyid`
unfoldable pub tableset_getbyid : Tableset → ℕ → Option ℕ
tableset_getbyid ts tid = if ltb tid ts.nitems then ts.slots tid else none

-- The comparison of the types of two tables.
abbrev pub same_type : TableType → TableType → Bool
same_type ipset ipset = true
same_type lpm lpm = true
same_type const const = true
same_type ifaddr ifaddr = true
same_type _ _ = false

-- `strcmp(name, t->t_name) == 0`
abbrev pub same_name : String → String → Bool
same_name a b = elim (name_eq a b) [ yes p ↦ true | no n ↦ false ]

-- The numbers of the types, `NPF_TABLE_IPSET` to `NPF_TABLE_IFADDR`.
abbrev pub is_type : ℕ → Bool
is_type type = (type == 1) || (type == 2) || (type == 3) || (type == 4)

module _ (maps : Thmap (List ℕ) ℕ) (lpms : Lpm) where
  -- The tables in memory, and those that have been destroyed.
  pub record Tables : Type 0 where
    pub at : ℕ → Table maps lpms
    pub destroyed : List ℕ

  -- A change of the count of references.
  abbrev pub with_refcnt : Tables → ℕ → ℕ → Tables
  with_refcnt mem p refs = record mem { at = update mem.at p (record (mem.at p) { refcnt = refs }) }

  -- `npf_table_destroy`, as the set sees it.
  abbrev pub destroy : Tables → ℕ → Tables
  destroy mem p = record mem { destroyed = p ∷ mem.destroyed }

  -- `npf_tableset_insert`
  unfoldable pub tableset_insert : Tables → Tableset → ℕ → Option TableErrno × Tables × Tableset
  tableset_insert mem ts p =
      let t = mem.at p in
      elim (ts.slots t.id) [
        | none ↦ (
          none,
          with_refcnt mem p (add32 t.refcnt 1),
          record ts { slots = update ts.slots t.id (some p) },
        )
        | some q ↦ (some eexist, mem, ts)
      ]

  -- `npf_tableset_swap`; the slot of the new table is not empty.
  unfoldable pub tableset_swap : Tables → Tableset → ℕ → Option ℕ × Tables × Tableset
  tableset_swap mem ts p = elim (ts.slots (mem.at p).id) [
    | none ↦ (none, mem, ts)
    | some old ↦ (
      some old,
      with_refcnt (with_refcnt mem p (mem.at old).refcnt) old 0,
      record ts { slots = update ts.slots (mem.at p).id (some p) },
    )
  ]

  -- The loop of `npf_tableset_getbyname` over `left` slots from `tid` on.
  unfoldable pub find_name : Tables → (ℕ → Option ℕ) → String → ℕ → ℕ → Option ℕ
  find_name mem slots name tid zero = none
  find_name mem slots name tid (suc left) =
      let later = find_name mem slots name (tid + 1) left in
      elim (slots tid) [
        | none ↦ later
        | some p ↦ if same_name name (mem.at p).name then some p else later
      ]

  -- `npf_tableset_getbyname`
  unfoldable pub tableset_getbyname : Tables → Tableset → String → Option ℕ
  tableset_getbyname mem ts name = find_name mem ts.slots name 0 ts.nitems

  -- `npf_table_check`; `len` is the length of the name, of which a table keeps less than
  -- `NPF_TABLE_MAXNAMELEN`.
  unfoldable pub table_check : Tables → Tableset → String → ℕ → ℕ → ℕ → Bool → Option TableErrno
  table_check mem ts name len tid type replacing =
      let taken : Bool = elim (ts.slots tid) [ none ↦ false | some p ↦ true ] in
      if not (ltb tid ts.nitems)
      then some einval
      else if not replacing && taken
      then some eexist
      else if not (is_type type)
      then some einval
      else if not (ltb len 32)
      then some enametoolong
      else elim (tableset_getbyname mem ts name) [
        | none ↦ none
        | some p ↦ if not replacing || not ((mem.at p).id == tid) then some eexist else none
      ]

  -- The old table that `npf_tableset_reload` keeps in a slot, if it keeps one.
  unfoldable pub kept : Tables → Tableset → ℕ → Option ℕ
  kept mem ots p =
      let t = mem.at p in
      if not (t.nitems == 0) then none else elim (tableset_getbyname mem ots t.name) [
        | none ↦ none
        | some q ↦ if same_type t.type (mem.at q).type then some q else none
      ]

  -- One turn of the loop of `npf_tableset_reload`.
  unfoldable pub reload_slot : Tables → Tableset → Tableset → ℕ → Tables × Tableset
  reload_slot mem nts ots tid = elim (nts.slots tid) [
    | none ↦ (mem, nts)
    | some p ↦ elim (kept mem ots p) [
      | none ↦ (mem, nts)
      | some q ↦
          let old = mem.at q in
          let held : Tables = record mem {
            at = update mem.at q (record old { refcnt = add32 old.refcnt 1; id = tid });
          } in
          (
            destroy (with_refcnt held p (sub32 (held.at p).refcnt 1)) p,
            record nts { slots = update nts.slots tid (some q) },
          )
    ]
  ]

  -- `npf_tableset_reload`, over `left` slots from `tid` on.
  unfoldable pub reload_loop : Tables → Tableset → Tableset → ℕ → ℕ → Tables × Tableset
  reload_loop mem nts ots tid zero = (mem, nts)
  reload_loop mem nts ots tid (suc left) =
      let turn = reload_slot mem nts ots tid in reload_loop turn.0 turn.1 ots (tid + 1) left

  unfoldable pub tableset_reload : Tables → Tableset → Tableset → Tables × Tableset
  tableset_reload mem nts ots = reload_loop mem nts ots 0 nts.nitems

  -- `npf_tableset_destroy`, over `left` slots from `tid` on: a reference less for each table.
  unfoldable pub destroy_loop : Tables → Tableset → ℕ → ℕ → Tables
  destroy_loop mem ts tid zero = mem
  destroy_loop mem ts tid (suc left) =
      let next : Tables = elim (ts.slots tid) [
        | none ↦ mem
        | some p ↦
            let refs = sub32 (mem.at p).refcnt 1 in
            if refs == 0 then destroy (with_refcnt mem p refs) p else with_refcnt mem p refs
      ] in
      destroy_loop next ts (tid + 1) left

  unfoldable pub tableset_destroy : Tables → Tableset → Tables
  tableset_destroy mem ts = destroy_loop mem ts 0 ts.nitems
