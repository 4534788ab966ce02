-- ===== src/Table/Tests.antt =====
-- The theorems on tables at concrete tables and sets.
use mathlib.Core.Option.{some-injective}
use npf.Prelude.{
  ℕ, ◌+◌, ◌*◌, ◌^◌, ◌≡◌, ◌↔◌, refl, arith, ◌||◌, Bool-cases, true, false, List, [], ◌∷◌, none, some,
  In, if◌then◌else◌, ◌==◌, inl, inr,
}
use npf.Thmap.{Thmap}
use npf.Thmap.Assoc.{assoc_map}
use npf.Conn.Index.{words_eq}
use npf.Inet.{no_netmask, netmask_check, addr_mask}
use npf.Lpm.{covers}
use npf.Lpm.Assoc.{assoc_lpm}
use npf.Table.{Tblent, TableType, ipset, lpm, enoent, eexist, einval, Table}
use npf.Table.Ops.{Cdb, is_found, table_create, table_insert, table_remove, table_lookup}
use npf.Table.AsSet.{table_run_set}
use npf.Table.Calls.{Call, insert, remove, lookup, flush, set_run, set_step, table_run}
use npf.Table.Prefixes.{prefix_of, lookup-insert_net}
use npf.Table.Set.{Tableset, Tables, tableset_reload, tableset_destroy}
use npf.Table.References.{refs}
use npf.Table.Preserve.{both, reload_keeps}

abbrev maps : Thmap (List ℕ) ℕ
maps = assoc_map words_eq

abbrev no_blob : Cdb
no_blob = record { find = λ blob addr. none; entries = λ blob. [] }

abbrev blank : ℕ → Tblent
blank e = record { preflen = 0; alen = 0; addr = [] }

-- A table in memory.
abbrev table_of : TableType → ℕ → ℕ → Table maps assoc_lpm
table_of type tid refs = record {
  map = maps.empty;
  gc = [];
  trie = [];
  blob = 0;
  elements = λ i. [];
  allocated = λ i. 0;
  list = [];
  nitems = 0;
  type = type;
  id = tid;
  refcnt = refs;
  name = "block";
  ents = blank;
  next = 0;
}

abbrev host : ℕ → List ℕ
host n = (n * 2 ^ 24 + 1) ∷ []

abbrev calls : List Call
calls =
    insert 4 (host 10) no_netmask
    ∷ insert 4 (host 10) no_netmask
    ∷ insert 4 (host 11) 24
    ∷ lookup 4 (host 10)
    ∷ remove 4 (host 10) 24
    ∷ lookup 4 (host 10)
    ∷ insert 4 (host 12) no_netmask
    ∷ flush
    ∷ lookup 4 (host 12)
    ∷ []

table_run_set_example :
    table_run maps assoc_lpm no_blob true (table_of ipset 0 0) calls ≡ set_run (λ a. false) calls
unfolding table_create
table_run_set_example =
    table_run_set maps assoc_lpm no_blob true blank "block" 0 0 (table_of ipset 0 0) calls refl

set_answers :
    set_run (λ a. false) calls
    ≡ none ∷ some eexist ∷ some einval ∷ none ∷ none ∷ some enoent ∷ none ∷ none ∷ some enoent ∷ []
unfolding set_run set_step netmask_check
set_answers = refl

abbrev ten_net : List ℕ
ten_net = (10 * 2 ^ 24) ∷ []

abbrev nets : Table maps assoc_lpm
nets = table_of lpm 0 0

abbrev ten : Table maps assoc_lpm
ten = (table_insert maps assoc_lpm true nets 4 ten_net 8).1

lookup-insert_net_example : table_lookup maps assoc_lpm no_blob ten 4 (host 10) ≡ (
    if is_found (assoc_lpm.lookup nets.trie (host 10)) || covers ten_net (prefix_of 4 8) (host 10)
    then none
    else some enoent)
unfolding table_insert netmask_check
lookup-insert_net_example =
    lookup-insert_net maps assoc_lpm no_blob true nets 4 4 ten_net (host 10) 8 refl refl refl

removed_net :
    table_lookup maps assoc_lpm no_blob
      (table_remove maps assoc_lpm ten 4 (host 10) 32).1
      4
      ((10 * 2 ^ 24 + 2) ∷ [])
    ≡ some enoent
unfolding table_remove table_lookup table_insert netmask_check addr_mask
removed_net = refl

-- An old table 1 and a new, empty table 2 of the same name.
abbrev mem : Tables maps assoc_lpm
mem = record { at = λ q. table_of ipset 0 (if (1 == q) || (2 == q) then 1 else 0); destroyed = [] }

abbrev set_of : ℕ → Tableset
set_of p = record { nitems = 1; slots = λ tid. if tid == 0 then some p else none }

abbrev reloaded : Tables maps assoc_lpm × Tableset
reloaded = tableset_reload maps assoc_lpm mem (set_of 2) (set_of 1)

only_two : (i p : ℕ) → (set_of 2).slots i ≡ some p → both (set_of 2) (set_of 1) p ≡ 1
unfolding refs
only_two i p e = elim (Bool-cases (i == 0)) [
  | inl first ↦ let two = some-injective 2 p (rw first at e) in ground (arith, two)
  | inr later ↦ cc (rw later at e)
]

reload_keeps_example :
    ((tableset_destroy maps assoc_lpm reloaded.0 (set_of 1)).at 1).refcnt
      ≡ refs reloaded.1.slots 1 0 reloaded.1.nitems
    × (In 1 (tableset_destroy maps assoc_lpm reloaded.0 (set_of 1)).destroyed
        ↔ (refs reloaded.1.slots 1 0 reloaded.1.nitems ≡ 0))
unfolding refs
reload_keeps_example =
    reload_keeps maps assoc_lpm mem (set_of 2) (set_of 1) 1 (λ q. ground arith) refl
      (λ i p low high e. only_two i p e) (omega arith) (omega arith)
