-- ===== src/Inet/Tests.antt =====
-- The theorems on checksums and addresses at concrete values.
use npf.Prelude.{ℕ, ◌+◌, ◌-◌, ◌%◌, ◌≡◌, refl, arith, List, [], ◌∷◌, none, inr}
use npf.Connkey.{src}
use npf.Inet.Rewrite.{Headers, napt_rwr, addr_of, port_of, napt_rwr_lem}
use npf.Inet.{addr_cksum}
use npf.Inet.Checksum.{addr_cksum-mod, sum}

abbrev inside : List ℕ
inside = 0x0a000001 ∷ []

abbrev outside : List ℕ
outside = 0xc0000201 ∷ []

addr_cksum-mod_example :
    (65535 - addr_cksum 0x1c46 inside outside + sum inside) % 65535
    ≡ (65535 - 0x1c46 + sum outside) % 65535
addr_cksum-mod_example =
    addr_cksum-mod 0x1c46 inside outside (omega arith) refl (omega arith, tt) (omega arith, tt)

-- A datagram from inside.
abbrev datagram : Headers
datagram = record {
  npc = record {
    info = 0x29;
    alen = 4;
    hlen = 20;
    proto = 17;
    src = inside;
    dst = 0x0a000002 ∷ [];
    ip_len = 140;
    sport = 40000;
    dport = 53;
    icmp_id = 0;
    th_seq = 0;
    th_ack_no = 0;
    th_off = 0;
    th_flags = 0;
    th_win = 0;
    tcp_opts = none;
    ifid = 1;
    ckey = none;
  };
  ip_sum = 0x1111;
  l4_sum = 0x1c46;
}

napt_rwr_lem_example :
    let r = napt_rwr datagram src outside 1024 in
    (r.0 ≡ none)
    × (addr_of r.1.npc src ≡ outside)
    × (port_of r.1.npc src ≡ 1024)
    × ((65535 - r.1.l4_sum + sum inside + 40000) % 65535
        ≡ (65535 - 0x1c46 + sum outside + 1024) % 65535)
napt_rwr_lem_example =
    napt_rwr_lem datagram src outside 1024 (inr (refl, omega arith)) (omega arith) (omega arith)
      (omega arith) (omega arith) refl (omega arith, tt) (omega arith, tt)
