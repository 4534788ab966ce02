-- ===== src/Nat/Entries.antt =====
-- The translation entries of src/kern/npf_nat.c: their creation and their end.
use npf.Prelude.{
  ℕ, ◌+◌, ◌%◌, Bool, not, ◌&&◌, ◌||◌, List, ◌∷◌, Option, none, some, ◌==◌, if◌then◌else◌, update,
  add32, without, u16_mod,
}
use npf.Packet.{Flow, forw, back, Cache, has_flag}
use npf.Connkey.{Which, src, dst}
use npf.State.{ipproto_tcp, ipproto_udp}
use npf.Inet.{addr_mask, addr_bitor, addr_mix}
use npf.Inet.Rewrite.{addr_of, port_of}
use npf.Thmap.{Thmap}
use npf.Lpm.{Lpm}
use npf.Table.Ops.{table_getsome}
use npf.Table.Set.{Tableset, Tables, tableset_getbyid}
use npf.Portmap.Ports.{Portmap, portmap_get, portmap_put}
use npf.Nat.{
  Policy, Entry, NatState, natout, nat_ports, nat_portmap, nat_usetable, algo_netmap, algo_rr,
}
use npf.Nat.Policies.{words_of, put_policy, policy_release}

-- What the environment gives to the creation of an entry: whether the entry and a bitmap of ports can be
-- allocated, and a random number.
pub record Supply : Type 0 where
  pub entry : Bool
  pub bitmap : Bool
  pub random : ℕ

-- `npf_nat_which`
unfoldable pub nat_which : ℕ → Flow → Which
nat_which type forw = if type == natout then src else dst
nat_which type back = if type == natout then dst else src

-- `npf_nat_algo_netmap`
unfoldable pub algo_netmap_addr : Cache → Policy → Which → List ℕ
algo_netmap_addr npc np which =
    addr_bitor (addr_of npc which) np.tmask (addr_mask (words_of npc.alen np.taddr) np.tmask)

-- The original port that `npf_nat_create` saves.
abbrev pub is_ported : Policy → Cache → Bool
is_ported np npc =
    has_flag np.flags nat_ports && ((npc.proto == ipproto_tcp) || (npc.proto == ipproto_udp))

-- The entry that `npf_nat_create` fills; `nt_ifid` has 16 bits.
unfoldable pub new_entry : Cache → ℕ → Policy → ℕ → List ℕ → ℕ → Entry
new_entry npc p np c taddr tport =
    let which = nat_which np.type forw in
    record {
      policy = p;
      ifid = npc.ifid % u16_mod;
      alen = npc.alen;
      taddr = taddr;
      oaddr = addr_of npc which;
      oport = if is_ported np npc then port_of npc which else 0;
      tport = tport;
      alg = none;
      conn = c;
    }

module _ (maps : Thmap (List ℕ) ℕ) (lpms : Lpm) where
  -- `npf_nat_getaddr`, with the policy after it. The source takes it for granted that the table is in
  -- the set; no table is no address here.
  unfoldable pub nat_getaddr :
      Tables maps lpms → Tableset → Cache → Policy → Option (List ℕ) × Policy
  nat_getaddr mem ts npc np =
      let turn = add32 np.extra 1 in
      let rr = np.algo == algo_rr in
      let idx = if rr then turn else addr_mix 0 npc.src npc.dst in
      (
        elim (tableset_getbyid ts np.tid) [
          | none ↦ none
          | some t ↦ table_getsome maps lpms (mem.at t) npc.alen idx
        ],
        if rr then record np { extra = turn } else np,
      )

  -- The translation address, with the policy after its selection.
  unfoldable pub select_taddr :
      Tables maps lpms → Tableset → Cache → Policy → Option (List ℕ) × Policy
  select_taddr mem ts npc np =
      if has_flag np.flags nat_usetable
      then nat_getaddr mem ts npc np
      else if np.algo == algo_netmap
      then (some (algo_netmap_addr npc np (nat_which np.type forw)), np)
      else (some (words_of npc.alen np.taddr), np)

  -- `npf_portmap_get`; the search always ends, so that the port 0 stands for no port only.
  abbrev pub get_port : Supply → Portmap maps → List ℕ → ℕ × Portmap maps
  get_port supply pm taddr = elim (portmap_get maps supply.bitmap supply.random pm taddr) [
    | none ↦ (0, pm)
    | some r ↦ r
  ]

  -- The translation port, with the map of ports after it.
  unfoldable pub select_tport : Supply → NatState maps → Cache → Policy → List ℕ → ℕ × Portmap maps
  select_tport supply st npc np taddr =
      if not (is_ported np npc)
      then (0, st.portmap)
      else if has_flag np.flags nat_portmap
      then get_port supply st.portmap taddr
      else (np.tport, st.portmap)

  -- `npf_nat_create`
  unfoldable pub nat_create :
      Supply
      → Tables maps lpms
      → Tableset
      → NatState maps
      → Cache
      → ℕ
      → ℕ
      → Option ℕ × NatState maps
  nat_create supply mem ts st npc p c =
      let chosen = select_taddr mem ts npc (st.policies p) in
      let np = chosen.1 in
      let nt = st.next in
      if not supply.entry then (none, st) else elim chosen.0 [
        | none ↦ (none, put_policy maps st p np)
        | some taddr ↦
            let tport = select_tport supply st npc np taddr in
            (
              some nt,
              record (put_policy maps st p (record np { nat_list = nt ∷ np.nat_list })) {
                entries = update st.entries nt (new_entry npc p np c taddr tport.0);
                next = nt + 1;
                portmap = tport.1;
              },
            )
      ]

  -- `npf_nat_destroy`; `bitmap` says whether a bitmap can be allocated. What the gateway of the entry
  -- does at its end does not concern this state.
  unfoldable pub nat_destroy : Bool → NatState maps → ℕ → NatState maps
  nat_destroy bitmap st nt =
      let entry = st.entries nt in
      let p = entry.policy in
      let np = st.policies p in
      let returned =
        if has_flag np.flags nat_portmap && not (entry.tport == 0)
        then portmap_put maps bitmap st.portmap (words_of entry.alen entry.taddr) entry.tport
        else st.portmap in
      policy_release maps
        (record (put_policy maps st p (record np { nat_list = without nt np.nat_list })) {
          entries = update st.entries nt (record entry { alg = none });
          portmap = returned;
        })
        p
