-- ===== src/Nat.antt =====
-- Network address translation, src/kern/npf_nat.c: the policies, the entries of the connections and the
-- state that both live in. A pointer to a policy or to an entry is a number.
pub mod Policies
pub mod Entries
pub mod Translate
pub mod Perform
pub mod Counted
pub mod Balance
pub mod Held
pub mod Reply
pub mod Import
pub mod Rotation
pub mod Drain
mod Tests
use npf.Prelude.{ℕ, List, Option}
use npf.Thmap.{Thmap}
use npf.Portmap.Ports.{Portmap}

-- The types and the flags of src/kern/npf.h.
abbrev pub natin : ℕ
natin = 1

abbrev pub natout : ℕ
natout = 2

abbrev pub nat_ports : ℕ
nat_ports = 0x01

abbrev pub nat_portmap : ℕ
nat_portmap = 0x02

abbrev pub nat_static : ℕ
nat_static = 0x04

abbrev pub nat_privmask : ℕ
nat_privmask = 0x0f000000

abbrev pub nat_usetable : ℕ
nat_usetable = 0x01000000

abbrev pub algo_netmap : ℕ
algo_netmap = 1

abbrev pub algo_rr : ℕ
algo_rr = 3

abbrev pub algo_npt66 : ℕ
algo_npt66 = 4

-- `npf_natpolicy_t`. The address is its four words; `extra` is the union of `n_rr_idx` and
-- `n_npt66_adj`.
pub record Policy : Type 0 where
  pub refcnt : ℕ
  pub id : ℕ
  pub type : ℕ
  pub flags : ℕ
  pub alen : ℕ
  pub taddr : List ℕ
  pub tmask : ℕ
  pub tport : ℕ
  pub tid : ℕ
  pub algo : ℕ
  pub extra : ℕ
  pub nat_list : List ℕ

-- `npf_nat_t`; the addresses are the words that `alen` covers.
pub record Entry : Type 0 where
  pub policy : ℕ
  pub ifid : ℕ
  pub alen : ℕ
  pub taddr : List ℕ
  pub oaddr : List ℕ
  pub oport : ℕ
  pub tport : ℕ
  pub alg : Option ℕ
  pub conn : ℕ

module _ (maps : Thmap (List ℕ) ℕ) where
  -- The policies and the entries in memory, the policies that have been freed, the next free place for
  -- an entry, and the map of ports.
  pub record NatState : Type 0 where
    pub policies : ℕ → Policy
    pub entries : ℕ → Entry
    pub next : ℕ
    pub freed : List ℕ
    pub portmap : Portmap maps
