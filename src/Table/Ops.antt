-- ===== src/Table/Ops.antt =====
-- The operations on one table of src/kern/npf_tableset.c.
use Prim.Native.String.{String}
use npf.Prelude.{
  ℕ, ◌+◌, ◌*◌, ◌/◌, ◌%◌, Bool, true, false, not, ◌&&◌, List, [], ◌∷◌, ◌++◌, Option, none, some,
  ◌==◌, if◌then◌else◌, update, add32, sub32, without, length, get_elem?, leb, ltb, shr,
}
use npf.Inet.{netmask_check, no_netmask}
use npf.Thmap.{Thmap}
use npf.Lpm.{Lpm, same_words}
use npf.Table.{
  Tblent, TableType, ipset, lpm, const, ifaddr, TableErrno, einval, eexist, enoent, enomem, Table,
}

-- `NPF_ADDRLEN2IDX`
abbrev pub addrlen2idx : ℕ → ℕ
addrlen2idx alen = shr alen 4

-- `roundup2(n, NPF_IFADDR_STEP)`
abbrev pub roundup_step : ℕ → ℕ
roundup_step n = (n + 3) / 4 * 4

-- What the source reads of the constant database: whether a blob holds an address, and its entries.
pub record Cdb : Type 0 where
  pub find : ℕ → List ℕ → Option (List ℕ)
  pub entries : ℕ → List (List ℕ)

abbrev pub is_found : Option ℕ → Bool
is_found none = false
is_found (some e) = true

module _ (maps : Thmap (List ℕ) ℕ) (lpms : Lpm) where
  -- `npf_table_create`; `memory` says whether the storage can be made.
  unfoldable pub table_create :
      Cdb → (ℕ → Tblent) → Bool → String → ℕ → TableType → ℕ → Option (Table maps lpms)
  table_create cdb ents memory name tid type blob =
      let t : Table maps lpms = record {
        map = maps.empty;
        gc = [];
        trie = lpms.empty;
        blob = blob;
        elements = λ i. [];
        allocated = λ i. 0;
        list = [];
        nitems = 0;
        type = type;
        id = tid;
        refcnt = 0;
        name = name;
        ents = ents;
        next = 0;
      } in
      elim type [
        | ipset ↦ if memory then some t else none
        | lpm ↦ if memory then some t else none
        | const ↦ if memory then some (record t { nitems = length (cdb.entries blob) }) else none
        | ifaddr ↦ some t
      ]

  -- A new entry at the head of the list.
  abbrev pub linked : Table maps lpms → ℕ → Table maps lpms
  linked t e = record t { list = e ∷ t.list; nitems = add32 t.nitems 1 }

  -- `table_ifaddr_insert`; `memory` says whether a larger array can be allocated.
  unfoldable pub ifaddr_insert :
      Bool → Table maps lpms → ℕ → ℕ → Option TableErrno × Table maps lpms
  ifaddr_insert memory t alen e =
      let i = addrlen2idx alen in
      let used = length (t.elements i) in
      let full = leb (t.allocated i) used in
      let allocated : ℕ → ℕ =
        if full then update t.allocated i (roundup_step (t.allocated i + 1)) else t.allocated in
      if full && not memory then (some enomem, t) else (
        none,
        record t {
          elements = update t.elements i (t.elements i ++ (e ∷ []));
          allocated = allocated;
        },
      )

  -- The entry that `npf_table_insert` allocates.
  abbrev pub with_entry : Table maps lpms → ℕ → List ℕ → ℕ → Table maps lpms
  with_entry t alen addr preflen = record t {
    ents = update t.ents t.next (record { preflen = preflen; alen = alen; addr = addr });
    next = t.next + 1;
  }

  -- `npf_table_insert`. An entry that is not inserted is freed.
  unfoldable pub table_insert :
      Bool → Table maps lpms → ℕ → List ℕ → ℕ → Option TableErrno × Table maps lpms
  table_insert memory t alen addr mask =
      let e = t.next in
      let preflen = if mask == no_netmask then alen * 8 else mask in
      let put = maps.put t.map addr e in
      let inserted = lpms.insert t.trie addr preflen e in
      let made = with_entry t alen addr 0 in
      let added = ifaddr_insert memory made alen e in
      if not (netmask_check alen mask) then (some einval, t) else elim t.type [
        | ipset ↦
            if not (mask == no_netmask)
            then (some einval, t)
            else if put.1 == e
            then (none, linked (record made { map = put.0 }) e)
            else (some eexist, record t { map = put.0 })
        | lpm ↦ elim (lpms.lookup t.trie addr) [
          | some w ↦ (some eexist, t)
          | none ↦
              if inserted.1
              then (none, linked (record (with_entry t alen addr preflen) { trie = inserted.0 }) e)
              else (some eexist, record t { trie = inserted.0 })
        ]
        | const ↦ (some einval, t)
        | ifaddr ↦ elim added.0 [ none ↦ (none, linked added.1 e) | some error ↦ (some error, t) ]
      ]

  -- An entry is taken off the list.
  abbrev pub unlinked : Table maps lpms → ℕ → Table maps lpms
  unlinked t e = record t { list = without e t.list; nitems = sub32 t.nitems 1 }

  -- `npf_table_remove`
  unfoldable pub table_remove :
      Table maps lpms → ℕ → List ℕ → ℕ → Option TableErrno × Table maps lpms
  table_remove t alen addr mask =
      let del = maps.del t.map addr in
      if not (netmask_check alen mask) then (some einval, t) else elim t.type [
        | ipset ↦ elim del.1 [
          | none ↦ (some enoent, record t { map = del.0 })
          | some e ↦ (none, record (unlinked t e) { map = del.0; gc = e ∷ t.gc })
        ]
        | lpm ↦ elim (lpms.lookup t.trie addr) [
          | none ↦ (some enoent, t)
          | some e ↦ (
            none,
            record (unlinked t e) {
              trie = (lpms.remove t.trie (t.ents e).addr (t.ents e).preflen).0;
            },
          )
        ]
        | const ↦ (some einval, t)
        | ifaddr ↦ (some einval, t)
      ]

  -- The loop over the elements of `npf_table_lookup`.
  unfoldable pub find_element : (ℕ → Tblent) → List ℕ → List ℕ → Bool
  find_element ents addr [] = false
  find_element ents addr (e ∷ rest) =
      let later = find_element ents addr rest in
      if same_words (ents e).addr addr then true else later

  -- `npf_table_lookup`
  unfoldable pub table_lookup : Cdb → Table maps lpms → ℕ → List ℕ → Option TableErrno
  table_lookup cdb t alen addr =
      let found : Bool = elim t.type [
        | ipset ↦ is_found (maps.get t.map addr)
        | lpm ↦ is_found (lpms.lookup t.trie addr)
        | const ↦ elim (cdb.find t.blob addr) [ none ↦ false | some value ↦ same_words addr value ]
        | ifaddr ↦ find_element t.ents addr (t.elements (addrlen2idx alen))
      ] in
      if not (netmask_check alen no_netmask)
      then some einval
      else if found
      then none
      else some enoent

  -- `npf_table_getsome`, of a table of the addresses of interfaces.
  unfoldable pub table_getsome : Table maps lpms → ℕ → ℕ → Option (List ℕ)
  table_getsome t alen idx =
      let elements = t.elements (addrlen2idx alen) in
      let nitems = length elements in
      if nitems == 0
      then none
      else elim (get_elem? elements (idx % nitems)) [ none ↦ none | some e ↦ some (t.ents e).addr ]

  -- `table_generic_list`: the entries that fit `room`, and whether all do.
  unfoldable pub list_entries :
      ℕ → (ℕ → Tblent) → List ℕ → ℕ → List (ℕ × List ℕ × ℕ) × Option TableErrno
  list_entries room ents [] off = ([], none)
  list_entries room ents (e ∷ rest) off =
      let later = list_entries room ents rest (off + 1) in
      if ltb room (off + 1)
      then ([], some enomem)
      else (((ents e).alen, (ents e).addr, (ents e).preflen) ∷ later.0, later.1)

  -- `table_ipset_flush`
  unfoldable pub ipset_flush_loop : (ℕ → Tblent) → maps.Map → List ℕ → maps.Map
  ipset_flush_loop ents m [] = m
  ipset_flush_loop ents m (e ∷ rest) = ipset_flush_loop ents (maps.del m (ents e).addr).0 rest

  unfoldable pub ipset_flush : Table maps lpms → Table maps lpms
  ipset_flush t = record t { map = ipset_flush_loop t.ents t.map t.list; list = []; nitems = 0 }

  -- `table_tree_flush`
  unfoldable pub tree_flush : Table maps lpms → Table maps lpms
  tree_flush t = record t { trie = lpms.empty; list = []; nitems = 0 }

  -- `table_ifaddr_flush`
  unfoldable pub ifaddr_flush : Table maps lpms → Table maps lpms
  ifaddr_flush t = record t { elements = λ i. []; allocated = λ i. 0; list = []; nitems = 0 }

  -- `npf_table_flush`
  unfoldable pub table_flush : Table maps lpms → Option TableErrno × Table maps lpms
  table_flush t = elim t.type [
    | ipset ↦ (none, ipset_flush t)
    | lpm ↦ (none, tree_flush t)
    | const ↦ (some einval, t)
    | ifaddr ↦ (some einval, t)
  ]

  -- `npf_table_gc`: the entries that are freed, and the table.
  unfoldable pub table_gc : Table maps lpms → List ℕ × Table maps lpms
  table_gc t = elim t.type [
    | ipset ↦ (t.gc, record t { gc = [] })
    | lpm ↦ ([], t)
    | const ↦ ([], t)
    | ifaddr ↦ ([], t)
  ]
