-- ===== src/Ifmap.antt =====
-- The map of interface names to numbers, src/kern/npf_if.c. An interface is a number, and what
-- `setmeta` of the kernel's operations stores for it is a part of the state.
pub mod Register
mod Tests
use Prim.Native.String.{String}
use mathlib.Core.Logic.{ite}
use text.Mathlib.Text.{get?}
use npf.Prelude.{
  ℕ, ◌+◌, ◌%◌, ◌-◌, Bool, true, false, not, ◌&&◌, List, [], ◌∷◌, ◌++◌, Option, none, some, ◌==◌,
  if◌then◌else◌, length, ltb, get_elem?, update, u32_mod, sub32, name_eq,
}

abbrev pub max_ifmap : ℕ
max_ifmap = 64

-- `NPF_IFMAP_NOID`
abbrev pub no_id : ℕ
no_id = 0

-- The fields of `npf_t` for the interfaces: the names in the slots that are in use, in order, and the
-- offset; and the numbers that are stored for the interfaces.
pub record Ifmap : Type 0 where
  pub names : List String
  pub off : ℕ
  pub meta : ℕ → ℕ

-- `NPF_IFMAP_SLOT2ID` and `NPF_IFMAP_ID2SLOT`
abbrev pub slot2id : ℕ → ℕ → ℕ
slot2id off slot = (off + slot + 1) % u32_mod

abbrev pub id2slot : ℕ → ℕ → ℕ
id2slot off id = sub32 (sub32 id off) 1

-- `npf_ifmap_init`
abbrev pub ifmap_init : Ifmap
ifmap_init = record { names = []; off = 0; meta = λ ifp. 0 }

-- The loop of `npf_ifmap_lookup` from the slot `i` on.
unfoldable pub lookup_from : ℕ → ℕ → List String → String → ℕ
lookup_from off i [] ifname = no_id
lookup_from off i (name ∷ rest) ifname =
    let later = lookup_from off (i + 1) rest ifname in
    ite (name_eq name ifname) (slot2id off i) later

-- `npf_ifmap_lookup`
abbrev pub ifmap_lookup : Ifmap → String → ℕ
ifmap_lookup ifmap ifname = lookup_from ifmap.off 0 ifmap.names ifname

-- `IFNAMSIZ` of the system's headers.
abbrev pub ifnamsiz : ℕ
ifnamsiz = 16

-- What `strlcpy` stores of an ASCII name: as much as leaves room for the final zero. A name that ends
-- before the cut has no such slice, and is stored whole.
unfoldable pub stored : String → String
stored ifname = elim (get? ifname 0 (ifnamsiz - 1)) [ none ↦ ifname | some cut ↦ cut ]

-- `npf_ifmap_register`; `ifops_lookup` is the kernel's.
unfoldable pub ifmap_register : (String → Option ℕ) → Ifmap → String → ℕ × Ifmap
ifmap_register ifops_lookup ifmap ifname =
    let known = ifmap_lookup ifmap ifname in
    let i = length ifmap.names in
    let id = slot2id ifmap.off i in
    let meta : ℕ → ℕ = elim (ifops_lookup ifname) [
      | none ↦ ifmap.meta
      | some ifp ↦ update ifmap.meta ifp id
    ] in
    if not (known == no_id)
    then (known, ifmap)
    else if i == max_ifmap
    then (no_id, ifmap)
    else (id, record ifmap { names = ifmap.names ++ (stored ifname ∷ []); meta = meta })

-- `npf_ifmap_flush`; the operation `flush` of the kernel stores the number for every interface.
unfoldable pub ifmap_flush : Ifmap → Ifmap
ifmap_flush ifmap = record {
  names = [];
  off = if ltb ifmap.off (u32_mod - 1 - max_ifmap) then ifmap.off + max_ifmap else 0;
  meta = λ ifp. no_id;
}

-- `npf_ifmap_getid`
abbrev pub ifmap_getid : Ifmap → ℕ → ℕ
ifmap_getid ifmap ifp = ifmap.meta ifp

-- `npf_ifmap_copylogname`; a number without a slot has the name of three question marks, and a slot that
-- is not in use the empty one.
unfoldable pub ifmap_copylogname : Ifmap → ℕ → String
ifmap_copylogname ifmap id =
    let i = id2slot ifmap.off id in
    if not (id == no_id) && ltb i max_ifmap
    then elim (get_elem? ifmap.names i) [ none ↦ "" | some name ↦ name ]
    else "???"

-- `npfk_ifmap_attach`, of an interface of the name that the kernel gives.
unfoldable pub ifmap_attach : Ifmap → ℕ → String → Ifmap
ifmap_attach ifmap ifp ifname = record ifmap {
  meta = update ifmap.meta ifp (ifmap_lookup ifmap ifname);
}

-- `npfk_ifmap_detach`
unfoldable pub ifmap_detach : Ifmap → ℕ → Ifmap
ifmap_detach ifmap ifp = record ifmap { meta = update ifmap.meta ifp no_id }
