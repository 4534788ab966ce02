-- ===== src/Conn.antt =====
-- Connection tracking, src/kern/npf_conn.c and src/kern/npf_conndb.c: the structure of a connection and
-- what the operations read besides. A pointer to a connection is a number.
pub mod Db
pub mod Ops
pub mod Gc
pub mod Index
pub mod Invariant
pub mod Establish
pub mod Setnat
pub mod Sound
pub mod Linked
pub mod Collect
pub mod Destroyed
pub mod Reach
pub mod Reply
pub mod Flush
mod Tests
use npf.Prelude.{
  ℕ, ◌+◌, Bool, true, false, not, ◌&&◌, List, Option, none, ◌==◌, if◌then◌else◌, ltb_ℤ, pos,
  signed32, sub32, some,
}
use npf.Packet.{Flow, forw, back, Cache, iscached}
use npf.Tcp.Window.{State}
use npf.State
use npf.Connkey

-- `c_flags`, each bit of it by its name; `dir` is what `PFIL_ALL` masks.
pub record Flags : Type 0 where
  pub dir : ℕ
  pub active : Bool
  pub pass : Bool
  pub expire : Bool
  pub removed : Bool

-- `npf_conn_t`. The rule procedure and the NAT entry are pointers; `fw` and `bk` are the keys, and the
-- list entries are in the lists of the database.
pub record Conn : Type 0 where
  pub proto : ℕ
  pub alen : ℕ
  pub ifid : ℕ
  pub flags : Flags
  pub retfl : ℕ
  pub rid : ℕ
  pub rproc : Option ℕ
  pub nat : Option ℕ
  pub refcnt : ℕ
  pub atime : ℕ
  pub state : State
  pub fw : List ℕ
  pub bk : List ℕ

abbrev pub npc_ip46 : ℕ
npc_ip46 = 0x03

abbrev pub npc_layer4 : ℕ
npc_layer4 = 0x08

-- The parameters that the operations read: those of the keys, of the state tracking and of the
-- collector.
pub record Params : Type 0 where
  pub key : Connkey.Params
  pub state : State.Params
  pub step : ℕ
  pub interval_min : ℕ
  pub interval_max : ℕ

-- The key of one direction: `npf_conn_getforwkey` or `npf_conn_getbackkey`.
abbrev pub key_of : Flow → Conn → List ℕ
key_of forw con = con.fw
key_of back con = con.bk

-- `npf_conn_trackable_p`
unfoldable pub trackable : Bool → Cache → Bool
trackable tracking npc = tracking && (iscached npc npc_ip46 && iscached npc npc_layer4)

abbrev pub same_flow : Flow → Flow → Bool
same_flow forw forw = true
same_flow back back = true
same_flow forw back = false
same_flow back forw = false

-- `npf_conn_check`; the packet has a buffer, whose interface is `npc.ifid`.
unfoldable pub conn_check : Conn → Cache → ℕ → Flow → Bool
conn_check con npc di flow =
    let match = con.flags.dir == di in
    let pflow = if match then forw else back in
    con.flags.active
    && (not con.flags.expire
        && (if con.ifid == 0 then true else same_flow flow pflow && con.ifid == npc.ifid))

abbrev pub or_zero_time : Option ℕ → ℕ
or_zero_time none = 0
or_zero_time (some t) = t

-- `npf_conn_expired`; the time out of a protocol that is not tracked is 0.
unfoldable pub conn_expired : Params → Conn → ℕ → Bool
conn_expired params con tsnow =
    let etime = or_zero_time (State.state_etime params.state con.state con.proto) in
    if con.flags.expire then true else ltb_ℤ (pos etime) (signed32 (sub32 tsnow con.atime))
