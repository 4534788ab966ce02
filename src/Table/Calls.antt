-- ===== src/Table/Calls.antt =====
-- Calls on a table of single addresses, src/kern/npf_tableset.c, and a set of addresses that answers them.
use npf.Prelude.{
  ℕ, ◌≡◌, Bool, true, false, ◌&&◌, List, [], ◌∷◌, Option, none, some, ◌==◌, if◌then◌else◌,
}
use npf.Inet.{netmask_check, no_netmask}
use npf.Thmap.{Thmap}
use npf.Lpm.{Lpm, same_words}
use npf.Table.{TableErrno, einval, eexist, enoent, Table}
use npf.Table.Ops.{Cdb, is_found, table_insert, table_remove, table_lookup, table_flush, table_gc}
use npf.Table.Ipset.{IsIpset}

-- The calls: addresses come with their length.
pub data Call : Type 0 where
  insert remove : ℕ → List ℕ → ℕ → Call
  lookup : ℕ → List ℕ → Call
  flush collect : Call

-- A set of addresses.
abbrev pub Addrs : Type 0
Addrs = List ℕ → Bool

abbrev pub with_addr : Addrs → List ℕ → Addrs
with_addr set addr a = if same_words addr a then true else set a

abbrev pub without_addr : Addrs → List ℕ → Addrs
without_addr set addr a = if same_words addr a then false else set a

-- What a set answers.
unfoldable pub set_step : Addrs → Call → Option TableErrno × Addrs
set_step set (insert alen addr mask) =
    if netmask_check alen mask && (mask == no_netmask)
    then (if set addr then (some eexist, set) else (none, with_addr set addr))
    else (some einval, set)
set_step set (remove alen addr mask) =
    if netmask_check alen mask
    then (if set addr then (none, without_addr set addr) else (some enoent, set))
    else (some einval, set)
set_step set (lookup alen addr) =
    if netmask_check alen no_netmask
    then (if set addr then none else some enoent, set)
    else (some einval, set)
set_step set flush = (none, λ a. false)
set_step set collect = (none, set)

unfoldable pub set_run : Addrs → List Call → List (Option TableErrno)
set_run set [] = []
set_run set (call ∷ rest) = (set_step set call).0 ∷ set_run (set_step set call).1 rest

module _ (maps : Thmap (List ℕ) ℕ) (lpms : Lpm) where
  unfoldable pub table_step :
      Cdb → Bool → Table maps lpms → Call → Option TableErrno × Table maps lpms
  table_step cdb memory t (insert alen addr mask) = table_insert maps lpms memory t alen addr mask
  table_step cdb memory t (remove alen addr mask) = table_remove maps lpms t alen addr mask
  table_step cdb memory t (lookup alen addr) = (table_lookup maps lpms cdb t alen addr, t)
  table_step cdb memory t flush = table_flush maps lpms t
  table_step cdb memory t collect = (none, (table_gc maps lpms t).1)

  unfoldable pub table_run : Cdb → Bool → Table maps lpms → List Call → List (Option TableErrno)
  table_run cdb memory t [] = []
  table_run cdb memory t (call ∷ rest) =
      (table_step cdb memory t call).0 ∷ table_run cdb memory (table_step cdb memory t call).1 rest

  -- The table keeps its invariant and holds the addresses of the set.
  pub record Holds (t : Table maps lpms) (set : Addrs) : Type 0 where
    pub is_ipset : IsIpset maps lpms t
    pub same : (a : List ℕ) → is_found (maps.get t.map a) ≡ set a

  -- A step of the table is a step of the set.
  abbrev pub Simulates : Option TableErrno × Table maps lpms → Option TableErrno × Addrs → Type 0
  Simulates r s = (r.0 ≡ s.0) × Holds r.1 s.1
