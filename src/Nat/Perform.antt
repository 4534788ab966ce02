-- ===== src/Nat/Perform.antt =====
-- `npf_do_nat` of src/kern/npf_nat.c and what it calls there: the inspection of the NAT ruleset, the entry
-- of a connection, and the sharing of a policy.
use npf.Prelude.{ℕ, Bool, true, not, ◌||◌, List, Option, none, some, ◌==◌, if◌then◌else◌, update}
use npf.Packet.{Flow, forw, back, Cache, iscached, has_flag}
use npf.Connkey.{Which, src, dst}
use npf.Inet.Rewrite.{Headers}
use npf.Thmap.{Thmap}
use npf.Lpm.{Lpm}
use npf.Table.Set.{Tableset, Tables}
use npf.Ruleset.{Rule, Ruleset}
use npf.Ruleset.Inspect.{ruleset_inspect}
use npf.Conn.{Params, npc_ip46, npc_layer4}
use npf.Conn.Db.{Db}
use npf.Conn.Ops.{conn_establish, conn_setnat, conn_expire, conn_release}
use npf.Nat.{NatState, natout, nat_static}
use npf.Nat.Policies.{policy_hold, policy_release}
use npf.Nat.Entries.{Supply, nat_create, nat_destroy}
use npf.Nat.Translate.{NatErrno, enomem, conn_error, dnat_translate, snat_translate}

-- `nat_type_which` of `npf_conn_setnat`: the end of the backwards key.
abbrev pub type_which : ℕ → Which
type_which type = if type == natout then dst else src

-- What `npf_do_nat` reads besides its state. The NAT ruleset has its rules in memory and the answers of
-- their filter code on this packet; `tracking` and `conn_memory` concern the establishment of a
-- connection, `now` is the time; `alg_match` is the gateway that claims a new entry, and `alg_exec` what
-- the gateways do to the packet.
pub record Setting (maps : Thmap (List ℕ) ℕ) (lpms : Lpm) : Type 0 where
  pub filter : ℕ → Bool
  pub rules : ℕ → Rule
  pub natset : Ruleset
  pub params : Params
  pub tracking : Bool
  pub conn_memory : Bool
  pub now : ℕ
  pub supply : Supply
  pub tables : Tables maps lpms
  pub tableset : Tableset
  pub alg_match : Option ℕ
  pub alg_exec : Headers → Headers

module _ (maps : Thmap (List ℕ) ℕ) (conns : Thmap (List ℕ) (ℕ × Flow)) (lpms : Lpm) where
  -- The state that a packet changes.
  pub record World : Type 0 where
    pub nat : NatState maps
    pub db : Db conns
    pub headers : Headers

  -- The policy of the rule that matches, if a rule does. The source takes it for granted that such a
  -- rule of the NAT ruleset has a policy, and that the inspection ends; both cases are `none` here.
  unfoldable pub matched_policy : Setting maps lpms → Cache → ℕ → Option ℕ
  matched_policy s npc di =
      elim (ruleset_inspect s.filter s.rules s.natset di npc.ifid s.natset.slots) [
        | none ↦ none
        | some none ↦ none
        | some (some rl) ↦ (s.rules rl).natp
      ]

  -- `npf_nat_inspect`: the policy, with a reference acquired.
  unfoldable pub nat_inspect :
      Setting maps lpms → NatState maps → Cache → ℕ → Option ℕ × NatState maps
  nat_inspect s st npc di = elim (matched_policy s npc di) [
    | none ↦ (none, st)
    | some p ↦ (some p, policy_hold maps st p)
  ]

  -- `npf_nat_lookup`: the entry of a connection, and the direction in the context of its policy.
  unfoldable pub nat_lookup : NatState maps → Db conns → Cache → ℕ → ℕ → Option (ℕ × Flow)
  nat_lookup st db npc c di = elim (db.conns c).nat [
    | none ↦ none
    | some nt ↦
        let entry = st.entries nt in
        if not (entry.ifid == npc.ifid)
        then none
        else some (nt, if (st.policies entry.policy).type == di then forw else back)
  ]

  -- The translation by an entry: the end of `npf_do_nat`.
  abbrev pub translate : Setting maps lpms → World → ℕ → Flow → Option NatErrno × World
  translate s w nt flow =
      let entry = w.nat.entries nt in
      let done = dnat_translate s.alg_exec w.headers (w.nat.policies entry.policy) entry flow in
      (done.0, record w { headers = done.1 })

  -- A new entry for a connection, its association and the translation; the reference on the policy is
  -- consumed on success and released on an error.
  unfoldable pub associate : Setting maps lpms → World → ℕ → ℕ → Option NatErrno × World
  associate s w p c =
      let made = nat_create maps lpms s.supply s.tables s.tableset w.nat w.headers.npc p c in
      elim made.0 [
        | none ↦ (some enomem, record w { nat = policy_release maps made.1 p })
        | some nt ↦
            let matched : NatState maps = record (made.1) {
              entries = update made.1.entries nt (record (made.1.entries nt) { alg = s.alg_match });
            } in
            let entry = matched.entries nt in
            let linked =
              conn_setnat conns w.db c nt entry.taddr entry.tport
                (type_which (matched.policies p).type) in
            elim linked.0 [
              | some error ↦ (
                some (conn_error error),
                record w { nat = nat_destroy maps lpms s.supply.bitmap matched nt; db = linked.1 },
              )
              | none ↦ translate s (record w { nat = matched; db = linked.1 }) nt forw
            ]
      ]

  -- The part of `npf_do_nat` after the label `out`, on a connection that it established.
  abbrev pub finish_conn : Option NatErrno × World → ℕ → Option NatErrno × World
  finish_conn (none, w) c = (none, record w { db = conn_release conns w.db c })
  finish_conn (some error, w) c =
      (some error, record w { db = conn_release conns (conn_expire conns w.db c) c })

  -- The part of `npf_do_nat` on a policy that matches and is held.
  unfoldable pub apply_policy :
      Setting maps lpms → World → Option ℕ → ℕ → ℕ → Option NatErrno × World
  apply_policy s w con p di =
      let np = w.nat.policies p in
      let static_done = snat_translate w.headers np forw in
      let made =
        conn_establish conns s.params s.tracking s.conn_memory w.db w.headers.npc di true s.now in
      if has_flag np.flags nat_static
      then (static_done.0, record w { nat = policy_release maps w.nat p; headers = static_done.1 })
      else elim con [
        | some c ↦ associate s w p c
        | none ↦ elim made.0 [
          | none ↦ (some enomem, record w { nat = policy_release maps w.nat p; db = made.1 })
          | some c ↦ finish_conn (associate s (record w { db = made.1 }) p c) c
        ]
      ]

  -- The entry of the connection, if there is a connection.
  abbrev pub known_entry : World → Option ℕ → ℕ → Option (ℕ × Flow)
  known_entry w none di = none
  known_entry w (some c) di = nat_lookup w.nat w.db w.headers.npc c di

  -- `npf_do_nat`
  unfoldable pub do_nat : Setting maps lpms → World → Option ℕ → ℕ → Option NatErrno × World
  do_nat s w con di =
      let npc = w.headers.npc in
      let found = nat_inspect s w.nat npc di in
      if not (iscached npc npc_ip46) || not (iscached npc npc_layer4)
      then (none, w)
      else elim (known_entry w con di) [
        | some (nt, flow) ↦ translate s w nt flow
        | none ↦ elim found.0 [
          | none ↦ (none, w)
          | some p ↦ apply_policy s (record w { nat = found.1 }) con p di
        ]
      ]

  -- `npf_nat_share_policy`: a new entry for another connection under the policy of an entry.
  unfoldable pub share_policy : Setting maps lpms → World → ℕ → ℕ → Option ℕ × World
  share_policy s w c src_nt =
      let p = (w.nat.entries src_nt).policy in
      let made = nat_create maps lpms s.supply s.tables s.tableset w.nat w.headers.npc p c in
      elim made.0 [
        | none ↦ (none, record w { nat = made.1 })
        | some nt ↦
            let held = policy_hold maps made.1 p in
            let entry = held.entries nt in
            let linked =
              conn_setnat conns w.db c nt entry.taddr entry.tport
                (type_which (held.policies p).type) in
            elim linked.0 [
              | some error ↦ (
                none,
                record w { nat = nat_destroy maps lpms s.supply.bitmap held nt; db = linked.1 },
              )
              | none ↦ (some nt, record w { nat = held; db = linked.1 })
            ]
      ]
