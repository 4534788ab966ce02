-- ===== src/Inet/Rewrite.antt =====
-- The rewriting of addresses, ports and checksums by src/kern/npf_inet.c, and the checksum that a
-- translation leaves.
use npf.Prelude.{
  ℕ, ◌+◌, ◌-◌, ◌%◌, ◌<◌, ◌≡◌, ◌≢◌, ◌⊎◌, arith, false, ◌||◌, List, [], ◌∷◌, Option, none, some, ◌==◌,
  if◌then◌else◌, length, ==→eq,
}
use npf.Packet.{Cache, iscached, npc_ip4}
use npf.Connkey.{Which, src, dst, ipproto_icmpv6}
use npf.State.{ipproto_tcp, ipproto_udp, ipproto_icmp}
use npf.Inet.{fixup16_cksum, fixup32_cksum, addr_cksum}
use npf.Inet.Checksum.{sum, AreWords, fixup16-mod, fixup32-lt, addr_cksum-mod}

-- The headers of a packet that a translation writes: the fields that the cache points to, and the
-- checksums of the layers 3 and 4.
pub record Headers : Type 0 where
  pub npc : Cache
  pub ip_sum : ℕ
  pub l4_sum : ℕ

-- What `npf_napt_rwr` returns as an `errno`.
pub data RwrErrno : Type 0 where
  enotsup : RwrErrno

abbrev pub addr_of : Cache → Which → List ℕ
addr_of npc src = npc.src
addr_of npc dst = npc.dst

abbrev pub port_of : Cache → Which → ℕ
port_of npc src = npc.sport
port_of npc dst = npc.dport

-- `npf_rwrip`
unfoldable pub rwrip : Headers → Which → List ℕ → Headers
rwrip h src addr = record h { npc = record (h.npc) { src = addr } }
rwrip h dst addr = record h { npc = record (h.npc) { dst = addr } }

-- `npf_rwrport`, of TCP or UDP.
unfoldable pub rwrport : Headers → Which → ℕ → Headers
rwrport h src port = record h { npc = record (h.npc) { sport = port } }
rwrport h dst port = record h { npc = record (h.npc) { dport = port } }

-- The checksum of the layer 4 after `npf_rwrcksum`.
abbrev pub l4_cksum : Headers → Which → List ℕ → ℕ → ℕ
l4_cksum h which addr port =
    let cksum = addr_cksum h.l4_sum (addr_of h.npc which) addr in
    if port == 0 then cksum else fixup16_cksum cksum (port_of h.npc which) port

-- `npf_rwrcksum`
unfoldable pub rwrcksum : Headers → Which → List ℕ → ℕ → Headers
rwrcksum h which addr port =
    let proto = h.npc.proto in
    let ip : Headers =
      if iscached h.npc npc_ip4
      then record h { ip_sum = addr_cksum h.ip_sum (addr_of h.npc which) addr }
      else h in
    if proto == ipproto_tcp
    then record ip { l4_sum = l4_cksum h which addr port }
    else if proto == ipproto_udp
    then (if h.l4_sum == 0 then ip else record ip { l4_sum = l4_cksum h which addr port })
    else ip

-- `npf_napt_rwr`
unfoldable pub napt_rwr : Headers → Which → List ℕ → ℕ → Option RwrErrno × Headers
napt_rwr h which addr port =
    let proto = h.npc.proto in
    let moved = rwrip (rwrcksum h which addr port) which addr in
    if port == 0
    then (none, moved)
    else if proto == ipproto_tcp || proto == ipproto_udp
    then (none, rwrport moved which port)
    else if proto == ipproto_icmp || proto == ipproto_icmpv6
    then (none, moved)
    else (some enotsup, moved)

addr_cksum-lt :
    (cksum : ℕ) (oaddr naddr : List ℕ) → cksum < 65536 → addr_cksum cksum oaddr naddr < 65536
unfolding addr_cksum
addr_cksum-lt cksum [] naddr h = h
addr_cksum-lt cksum (x ∷ os) [] h = h
addr_cksum-lt cksum (x ∷ os) (y ∷ ns) h =
    addr_cksum-lt (fixup32_cksum cksum x y) os ns (fixup32-lt cksum x y)

l4_cksum-mod :
    (h : Headers) (which : Which) (addr : List ℕ) (port : ℕ)
    → h.l4_sum < 65536
    → port_of h.npc which < 65536
    → port < 65536
    → (port == 0) ≡ false
    → length (addr_of h.npc which) ≡ length addr
    → AreWords (addr_of h.npc which)
    → AreWords addr
    → (65535 - l4_cksum h which addr port + sum (addr_of h.npc which) + port_of h.npc which) % 65535
      ≡ (65535 - h.l4_sum + sum addr + port) % 65535
l4_cksum-mod h which addr port s o p z l a b =
    let cksum = addr_cksum h.l4_sum (addr_of h.npc which) addr in
    let small = addr_cksum-lt h.l4_sum (addr_of h.npc which) addr s in
    rw z (
      omega (
        arith,
        addr_cksum-mod h.l4_sum (addr_of h.npc which) addr s l a b,
        fixup16-mod cksum (port_of h.npc which) port small o p,
      ))

-- The translation of one end of a packet of TCP, or of UDP with a checksum, to an address of the same
-- length and a port that is not zero, succeeds; it leaves the address and the port at that end, and the
-- checksum of the layer 4 right: modulo 65535, the sum that it stands for loses the old address and
-- port and gains the new ones.
pub napt_rwr_lem :
    (h : Headers) (which : Which) (addr : List ℕ) (port : ℕ)
    → (h.npc.proto ≡ ipproto_tcp) ⊎ ((h.npc.proto ≡ ipproto_udp) × (h.l4_sum ≢ 0))
    → h.l4_sum < 65536
    → port_of h.npc which < 65536
    → port < 65536
    → port ≢ 0
    → length (addr_of h.npc which) ≡ length addr
    → AreWords (addr_of h.npc which)
    → AreWords addr
    → let r = napt_rwr h which addr port in
      (r.0 ≡ none)
      × (addr_of r.1.npc which ≡ addr)
      × (port_of r.1.npc which ≡ port)
      × ((65535 - r.1.l4_sum + sum (addr_of h.npc which) + port_of h.npc which) % 65535
          ≡ (65535 - h.l4_sum + sum addr + port) % 65535)
unfolding napt_rwr rwrcksum rwrip rwrport
napt_rwr_lem h src addr port proto s o p z l a b =
    let nonzero : (port == 0) ≡ false = ground (arith, ==→eq port 0) in
    let right = l4_cksum-mod h src addr port s o p nonzero l a b in ground (arith, right)
napt_rwr_lem h dst addr port proto s o p z l a b =
    let nonzero : (port == 0) ≡ false = ground (arith, ==→eq port 0) in
    let right = l4_cksum-mod h dst addr port s o p nonzero l a b in ground (arith, right)
