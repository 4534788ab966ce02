-- ===== src/Connkey.antt =====
-- Connection keys, src/kern/npf_connkey.c. A key is the list of its 32-bit words: the header word, the
-- ports, the source and the destination address. An address (`npf_addr_t`) is a list of words.
pub mod Layout
pub mod Fields
pub mod Adjust
pub mod Match
mod Tests
use npf.Prelude.{
  ℕ, ◌+◌, ◌-◌, ◌*◌, ◌/◌, ◌^◌, Bool, true, false, ◌||◌, List, [], ◌∷◌, ◌++◌, Option, none, some, ltb,
  ◌==◌, if◌then◌else◌, bit_and, bit_or, bit_xor, shl32, shr, get_or, take, drop, length, not,
}
use npf.Packet.{Flow, forw, back, Cache, iscached, npc_icmp_id}
use npf.State.{ipproto_tcp, ipproto_udp, ipproto_icmp}

abbrev pub ipproto_icmpv6 : ℕ
ipproto_icmpv6 = 58

abbrev pub pfil_all : ℕ
pfil_all = 3

-- `NPF_SRC` and `NPF_DST`
pub data Which : Type 0 where
  src dst : Which

abbrev pub which_index : Which → ℕ
which_index src = 0
which_index dst = 1

-- The addresses and the ports of the two ends.
pub record Ends : Type 0 where
  pub saddr : List ℕ
  pub daddr : List ℕ
  pub sid : ℕ
  pub did : ℕ

abbrev pub swap_ends : Ends → Ends
swap_ends e = record { saddr = e.daddr; daddr = e.saddr; sid = e.did; did = e.sid }

abbrev pub oriented : Flow → Ends → Ends
oriented forw e = e
oriented back e = swap_ends e

-- `npf_connkey_setkey`, which returns the length of the key in bytes too.
unfoldable pub setkey : ℕ → ℕ → Ends → Flow → List ℕ × ℕ
setkey alen proto ends flow =
    let e = oriented flow ends in
    let k0 = bit_or (shl32 (shr alen 2) 28) (shl32 proto 20) in
    let k1 = bit_or (shl32 e.sid 16) e.did in
    let nwords = shr alen 2 in
    if alen == 4
    then (k0 ∷ k1 ∷ get_or e.saddr 0 0 ∷ get_or e.daddr 0 0 ∷ [], 16)
    else (k0 ∷ k1 ∷ take nwords e.saddr ++ take nwords e.daddr, (2 + nwords * 2) * 4)

abbrev pub word : List ℕ → ℕ → ℕ
word k i = get_or k i 0

-- `NPF_CONNKEY_ALEN` and `NPF_CONNKEY_LEN`
abbrev pub connkey_alen : List ℕ → ℕ
connkey_alen key = shr (word key 0) 28 * 4

abbrev pub connkey_len : List ℕ → ℕ
connkey_len key = 8 + connkey_alen key * 2

-- What `npf_connkey_getkey` stores: address length, protocol and ends.
pub record Parts : Type 0 where
  pub alen : ℕ
  pub proto : ℕ
  pub ends : Ends

-- `npf_connkey_getkey`; `none` is the failed assertion on the address length.
unfoldable pub getkey : List ℕ → Option Parts
getkey key =
    let alen = connkey_alen key in
    let nwords = shr alen 2 in
    if alen == 16 || alen == 4
    then some (record {
      alen = alen;
      proto = bit_and (shr (word key 0) 16) 0xff;
      ends = record {
        saddr = take nwords (drop 2 key);
        daddr = take nwords (drop (2 + nwords) key);
        sid = shr (word key 1) 16;
        did = bit_and (word key 1) 0xffff;
      };
    })
    else none

-- A write to the header word.
abbrev pub set_header : List ℕ → (ℕ → ℕ) → List ℕ
set_header [] f = []
set_header (k0 ∷ rest) f = f k0 ∷ rest

-- `npf_connkey_setckey`
unfoldable pub setckey : List ℕ → ℕ → ℕ → List ℕ
setckey key ifid di =
    let key' = if ifid == 0 then key else set_header key (λ k0. bit_or k0 ifid) in
    if di == 0 then key' else set_header key' (λ k0. bit_or k0 (shl32 di 18))

-- `npf_connkey_getckey`: the interface and the direction.
unfoldable pub getckey : List ℕ → ℕ × ℕ
getckey key = (bit_and (word key 0) (2 ^ 20 - 1), bit_and (shr (word key 0) 18) pfil_all)

-- `memcpy` of words to an offset within the key.
abbrev pub overwrite : List ℕ → ℕ → List ℕ → List ℕ
overwrite key off words = take off key ++ (words ++ drop (off + length words) key)

-- The two writes of `npf_conn_adjkey`.
unfoldable pub set_address : List ℕ → List ℕ → Which → List ℕ
set_address key naddr which =
    let nwords = shr (connkey_alen key) 2 in
    overwrite key (2 + nwords * which_index which) (take nwords naddr)

unfoldable pub set_port : List ℕ → ℕ → Which → List ℕ
set_port key id which =
    let shift = if which_index which == 0 then 16 else 0 in
    let mask = shr 0xffff0000 shift in
    overwrite key 1 (bit_or (shl32 id shift) (bit_and (word key 1) mask) ∷ [])

-- `npf_conn_adjkey`
unfoldable pub adjkey : List ℕ → List ℕ → ℕ → Which → List ℕ
adjkey key naddr id which =
    let key' = set_address key naddr which in if id == 0 then key' else set_port key' id which

-- `npf_connkey_copy`: the new key and its length.
unfoldable pub connkey_copy : List ℕ → Bool → List ℕ × ℕ
connkey_copy skey invert =
    let nwords = shr (connkey_alen skey) 2 in
    let s1 = word skey 1 in
    if invert
    then (
      s1 ∷ bit_or (shr s1 16) (shl32 s1 16) ∷ take nwords (drop (2 + nwords) skey)
          ++ take nwords (drop 2 skey),
      connkey_len skey,
    )
    else (take (shr (connkey_len skey) 2) skey, connkey_len skey)

-- `npf_conn_params_t`
pub record Params : Type 0 where
  pub connkey_interface : ℕ
  pub connkey_direction : ℕ

-- The identifiers of the two ends, where the protocol has them.
unfoldable pub packet_ids : Cache → Option (ℕ × ℕ)
packet_ids npc =
    if npc.proto == ipproto_tcp || npc.proto == ipproto_udp
    then some (npc.sport, npc.dport)
    else if npc.proto == ipproto_icmp || npc.proto == ipproto_icmpv6
    then (if iscached npc npc_icmp_id then some (npc.icmp_id, npc.icmp_id) else none)
    else none

-- The key of the packet itself: `npf_connkey_setkey`, then `npf_connkey_setckey`.
unfoldable pub packet_key : Params → Cache → ℕ → Flow → ℕ × ℕ → List ℕ × ℕ
packet_key params npc di flow (sid, did) =
    let ends : Ends = record { saddr = npc.src; daddr = npc.dst; sid = sid; did = did } in
    let set = setkey npc.alen npc.proto ends flow in
    (
      setckey set.0 (if params.connkey_interface == 0 then 0 else npc.ifid)
          (if params.connkey_direction == 0 then 0 else bit_and di pfil_all),
      set.1,
    )

abbrev pub is_back : Flow → Bool
is_back forw = false
is_back back = true

-- `npf_conn_conkey`: the key and its length, or `none` for a return of zero.
unfoldable pub conkey : Params → Cache → ℕ → Flow → Option (List ℕ × ℕ)
conkey params npc di flow = elim npc.ckey [
  | some key ↦ some (connkey_copy key (is_back flow))
  | none ↦ elim (packet_ids npc) [
    | none ↦ none
    | some ids ↦ some (packet_key params npc di flow ids)
  ]
]
