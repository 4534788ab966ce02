-- ===== src/Connkey/Match.antt =====
-- The key of a reply is the backwards key of the packet that it answers.
use npf.Prelude.{ℕ, ◌≡◌, arith, Option, none, some, Option-cases, inl, inr}
use npf.Packet.{forw, back, Cache, has_flag, npc_icmp_id}
use npf.Connkey.{Params, setkey, packet_ids, packet_key, conkey}

-- `r` answers `p`: the ends are exchanged, and the rest of what makes the key is the same. Neither
-- overrides its key.
pub record Answers (r p : Cache) : Type 0 where
  pub same_alen : r.alen ≡ p.alen
  pub same_proto : r.proto ≡ p.proto
  pub same_ifid : r.ifid ≡ p.ifid
  pub from_dst : r.src ≡ p.dst
  pub to_src : r.dst ≡ p.src
  pub from_dport : r.sport ≡ p.dport
  pub to_sport : r.dport ≡ p.sport
  pub same_id : r.icmp_id ≡ p.icmp_id
  pub same_query : has_flag r.info npc_icmp_id ≡ has_flag p.info npc_icmp_id
  pub own_key : r.ckey ≡ none
  pub own_key' : p.ckey ≡ none

abbrev swap_ids : Option (ℕ × ℕ) → Option (ℕ × ℕ)
swap_ids none = none
swap_ids (some (a, b)) = some (b, a)

packet_ids-swap : (r p : Cache) → Answers r p → packet_ids r ≡ swap_ids (packet_ids p)
unfolding packet_ids
packet_ids-swap r p a = ground arith

packet_key-swap :
    (params : Params) (r p : Cache) (di x y : ℕ)
    → Answers r p
    → packet_key params r di forw (x, y) ≡ packet_key params p di back (y, x)
unfolding packet_key setkey
packet_key-swap params r p di x y a = ground arith

-- For every direction, the lookup key of an answering packet is the backwards key that is stored for
-- the packet which it answers, protocols without a key included.
pub conkey-Answers :
    (params : Params) (r p : Cache) (di : ℕ)
    → Answers r p
    → conkey params r di forw ≡ conkey params p di back
unfolding conkey
conkey-Answers params r p di a = elim (Option-cases (packet_ids p)) [
  | inl e ↦ ground (arith, packet_ids-swap r p a)
  | inr (ids, e) ↦
      ground (arith, packet_ids-swap r p a, packet_key-swap params r p di ids.1 ids.0 a)
]
