-- ===== src/Table.antt =====
-- Tables of addresses, src/kern/npf_tableset.c: the entries, the tables and the sets of tables. The map,
-- the store of prefixes and the constant database are parameters; an address is its words.
pub mod Ops
pub mod Set
pub mod References
pub mod Reload
pub mod Preserve
pub mod Ipset
pub mod Calls
pub mod Steps
pub mod AsSet
pub mod Prefixes
mod Tests
use Prim.Native.String.{String}
use npf.Prelude.{ℕ, ◌+◌, Bool, List, [], ◌∷◌, Option, none, some, update, add32, sub32, without}
use npf.Thmap.{Thmap}
use npf.Lpm.{Lpm}

-- `npf_tblent_t`
pub record Tblent : Type 0 where
  pub preflen : ℕ
  pub alen : ℕ
  pub addr : List ℕ

-- `NPF_TABLE_IPSET`, `NPF_TABLE_LPM`, `NPF_TABLE_CONST` and `NPF_TABLE_IFADDR`
pub data TableType : Type 0 where
  ipset lpm const ifaddr : TableType

-- What the functions return as an `errno`.
pub data TableErrno : Type 0 where
  einval eexist enoent enomem enametoolong : TableErrno

module _ (maps : Thmap (List ℕ) ℕ) (lpms : Lpm) where
  -- `npf_table_t`, with the memory of its entries and the next free place in it. An array of entries has
  -- its length in `allocated`, and the used part in `elements`, for each of the two address lengths.
  pub record Table : Type 0 where
    pub map : maps.Map
    pub gc : List ℕ
    pub trie : lpms.Trie
    pub blob : ℕ
    pub elements : ℕ → List ℕ
    pub allocated : ℕ → ℕ
    pub list : List ℕ
    pub nitems : ℕ
    pub type : TableType
    pub id : ℕ
    pub refcnt : ℕ
    pub name : String
    pub ents : ℕ → Tblent
    pub next : ℕ
