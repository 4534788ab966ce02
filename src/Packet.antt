-- ===== src/Packet.antt =====
-- The packet information cache (`npf_cache_t` of src/kern/npf.h) as far as the modelled code reads
-- it, and the TCP header accessor of src/kern/npf_inet.c.
pub mod Options
use npf.Prelude.{
  ℕ, ◌+◌, ◌*◌, Bool, not, true, false, List, Option, bit_and, sub32, ◌==◌, if◌then◌else◌,
}

pub data Flow : Type 0 where
  forw back : Flow

abbrev pub opposite : Flow → Flow
opposite forw = back
opposite back = forw

-- The flags of `npc_info`.
abbrev pub npc_ip4 : ℕ
npc_ip4 = 0x01

abbrev pub npc_ip6 : ℕ
npc_ip6 = 0x02

abbrev pub npc_icmp_id : ℕ
npc_icmp_id = 0x80

-- The bits of `th_flags`.
abbrev pub th_fin : ℕ
th_fin = 0x01

abbrev pub th_syn : ℕ
th_syn = 0x02

abbrev pub th_rst : ℕ
th_rst = 0x04

abbrev pub th_ack : ℕ
th_ack = 0x10

-- The header fields are in host order. `ip_len` is `ip_len` of an IPv4 header and `ip6_plen` of an
-- IPv6 one. The addresses are lists of 32-bit words. `tcp_opts` is what `nbuf_advance` gives for the
-- TCP options: their bytes, or `none` if they cannot be fetched. `ckey` is `npc_ckey`, a key that
-- overrides the one of the packet.
pub record Cache : Type 0 where
  pub info : ℕ
  pub alen : ℕ
  pub hlen : ℕ
  pub proto : ℕ
  pub src : List ℕ
  pub dst : List ℕ
  pub ip_len : ℕ
  pub sport : ℕ
  pub dport : ℕ
  pub icmp_id : ℕ
  pub th_seq : ℕ
  pub th_ack_no : ℕ
  pub th_off : ℕ
  pub th_flags : ℕ
  pub th_win : ℕ
  pub tcp_opts : Option (List ℕ)
  pub ifid : ℕ
  pub ckey : Option (List ℕ)

-- `tcpfl & mask`, as a truth value.
abbrev pub has_flag : ℕ → ℕ → Bool
has_flag flags mask = not (bit_and flags mask == 0)

abbrev pub iscached : Cache → ℕ → Bool
iscached npc inf = has_flag npc.info inf

-- The data length that `npf_tcpsaw` returns: unsigned arithmetic, read back as an `int` of the same
-- 32 bits.
unfoldable pub tcp_data_len : Cache → ℕ
tcp_data_len npc =
    if iscached npc npc_ip4
    then sub32 (sub32 npc.ip_len npc.hlen) thlen
    else if iscached npc npc_ip6
    then sub32 (sub32 npc.ip_len (sub32 npc.hlen 40)) thlen
    else 0
  where
    thlen : ℕ
    thlen = npc.th_off * 4
