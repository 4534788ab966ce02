-- ===== src/Nat/Translate.antt =====
-- The translation of packets by src/kern/npf_nat.c.
use npf.Prelude.{ℕ, List, Option, none, some, ◌==◌, if◌then◌else◌, bit_or}
use npf.Packet.{Flow, forw, back, has_flag}
use npf.Inet.Rewrite.{Headers, RwrErrno, napt_rwr}
use npf.Inet.Npt66.{npt66_rwr}
use npf.Conn.Ops.{ConnErrno}
use npf.Nat.{Policy, Entry, algo_netmap, algo_npt66}
use npf.Nat.Policies.{words_of}
use npf.Nat.Entries.{nat_which, algo_netmap_addr}

-- What the translation returns as an `errno`; those of the connections keep their own type.
pub data NatErrno : Type 0 where
  einval enomem enotsup_proto : NatErrno
  conn_error : ConnErrno → NatErrno

abbrev pub rwr_error : Option RwrErrno → Option NatErrno
rwr_error none = none
rwr_error (some e) = some enotsup_proto

-- `NPC_ALG_EXEC`
abbrev pub npc_alg_exec : ℕ
npc_alg_exec = 0x100

-- The headers with the flag set.
abbrev pub marked : Headers → Headers
marked h = record h { npc = record (h.npc) { info = bit_or h.npc.info npc_alg_exec } }

-- The address and the port that `npf_dnat_translate` writes.
abbrev pub target : Entry → Flow → List ℕ × ℕ
target nt forw = (nt.taddr, nt.tport)
target nt back = (nt.oaddr, nt.oport)

-- `npf_dnat_translate`; `alg_exec` is what the gateways do to the packet, cached anew after it.
unfoldable pub dnat_translate :
    (Headers → Headers) → Headers → Policy → Entry → Flow → Option NatErrno × Headers
dnat_translate alg_exec h np nt flow =
    let seen = if has_flag h.npc.info npc_alg_exec then h else alg_exec (marked h) in
    let to = target nt flow in
    let done = napt_rwr seen (nat_which np.type flow) to.0 to.1 in (rwr_error done.0, done.1)

-- `npf_snat_translate`
unfoldable pub snat_translate : Headers → Policy → Flow → Option NatErrno × Headers
snat_translate h np flow =
    let which = nat_which np.type flow in
    let mapped = napt_rwr h which (algo_netmap_addr h.npc np which) np.tport in
    let prefixed = npt66_rwr h which np.taddr np.tmask np.extra in
    let plain = napt_rwr h which (words_of h.npc.alen np.taddr) np.tport in
    if np.algo == algo_netmap
    then (rwr_error mapped.0, mapped.1)
    else if np.algo == algo_npt66
    then (if prefixed.0 then none else some einval, prefixed.1)
    else (rwr_error plain.0, plain.1)
