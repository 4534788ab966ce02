-- ===== src/Table/AsSet.antt =====
-- A run of calls on a table of single addresses, src/kern/npf_tableset.c, against a set of addresses.
use Prim.Native.String.{String}
use npf.Prelude.{ℕ, ◌≡◌, ap₂, refl, ap, Bool, true, false, List, [], ◌∷◌, some}
use npf.Thmap.{Thmap}
use npf.Lpm.{Lpm}
use npf.Table.{Tblent, ipset, Table}
use npf.Table.Ops.{Cdb, is_found, table_create}
use npf.Table.Ipset.{create_entry}
use npf.Table.Calls.{
  Call, insert, remove, lookup, flush, collect, Addrs, set_step, set_run, table_step, table_run,
  Holds, Simulates,
}
use npf.Table.Steps.{insert_step, remove_step, lookup_step, flush_step, collect_step}

module _ (maps : Thmap (List ℕ) ℕ) (lpms : Lpm) where
  step_sim :
      (cdb : Cdb) (memory : Bool) (t : Table maps lpms) (set : Addrs) (call : Call)
      → Holds maps lpms t set
      → Simulates maps lpms (table_step maps lpms cdb memory t call) (set_step set call)
  unfolding table_step
  step_sim cdb memory t set (insert alen addr mask) h =
      insert_step maps lpms memory t set alen addr mask h
  step_sim cdb memory t set (remove alen addr mask) h = remove_step maps lpms t set alen addr mask h
  step_sim cdb memory t set (lookup alen addr) h = lookup_step maps lpms cdb t set alen addr h
  step_sim cdb memory t set flush h = flush_step maps lpms t set h
  step_sim cdb memory t set collect h = collect_step maps lpms t set h

  -- The answers of the table are those of the set.
  run_sim :
      (cdb : Cdb) (memory : Bool) (t : Table maps lpms) (set : Addrs) (calls : List Call)
      → Holds maps lpms t set
      → table_run maps lpms cdb memory t calls ≡ set_run set calls
  unfolding table_run set_run
  run_sim cdb memory t set [] h = refl
  run_sim cdb memory t set (call ∷ rest) h =
      let s = step_sim cdb memory t set call h in
      ap₂ (λ x xs. x ∷ xs) s.0
        (run_sim cdb memory (table_step maps lpms cdb memory t call).1 (set_step set call).1 rest
          s.1)

  -- A new table of single addresses answers any sequence of insertions, removals, lookups, flushes and
  -- collections as a set of addresses does that starts empty, errors included, whatever the map.
  pub table_run_set :
      (cdb : Cdb) (memory : Bool) (ents : ℕ → Tblent) (name : String) (tid blob : ℕ)
      (t : Table maps lpms) (calls : List Call)
      → table_create maps lpms cdb ents true name tid ipset blob ≡ some t
      → table_run maps lpms cdb memory t calls ≡ set_run (λ a. false) calls
  table_run_set cdb memory ents name tid blob t calls made =
      let fresh = create_entry maps lpms cdb ents name tid blob t made in
      run_sim cdb memory t (λ a. false) calls
        (record { is_ipset = fresh.0; same = λ a. ap is_found (fresh.1 a) })
