-- ===== src/Nat/Tests.antt =====
-- The theorems on address translation at concrete policies and packets.
use npf.Prelude.{
  In, ℕ, ◌≡◌, inr, refl, arith, true, false, not, List, [], ◌∷◌, Option, none, some, ◌==◌, pos,
}
use npf.Packet.{Flow, back}
use npf.Thmap.{Thmap}
use npf.Thmap.Assoc.{assoc_map}
use npf.Lpm.Assoc.{assoc_lpm}
use npf.Connkey.{swap_ends}
use npf.State.{zero_state}
use npf.Inet.Rewrite.{Headers, napt_rwr, rwrport, rwrip, rwrcksum}
use npf.Table.Set.{Tables, tableset_create}
use npf.Ruleset.{Rule, Ruleset}
use npf.Ifmap.{ifmap_init}
use npf.Portmap.Ports.{Portmap, portmap_create}
use npf.Conn.{Conn}
use npf.Conn.Db.{conndb_create}
use npf.Conn.Ops.{new_conn}
use npf.Conn.Index.{words_eq}
use npf.Nat.{Policy, Entry, NatState, natout}
use npf.Nat.Policies.{natpolicy_cmp}
use npf.Nat.Entries.{nat_which, nat_getaddr, new_entry}
use npf.Nat.Translate.{dnat_translate}
use npf.Nat.Perform.{Setting, World, do_nat}
use npf.Nat.Counted.{IsCounted}
use npf.Nat.Held.{IsBalanced, do_nat-IsBalanced}
use npf.Nat.Reply.{ends_of, dnat_translate-reply}
use npf.Nat.Import.{EntryDict, import_port, imported, nat_export, nat_import, nat_import-export}
use npf.Nat.Drain.{end_entries, natpolicy_destroy, natpolicy_destroy-freed}
use npf.Nat.Rotation.{natpolicy_cmp-getaddr}
use npf.Table.{ipset, Table}

abbrev maps : Thmap (List ℕ) ℕ
maps = assoc_map words_eq

abbrev conns : Thmap (List ℕ) (ℕ × Flow)
conns = assoc_map words_eq

abbrev inside : List ℕ
inside = 0x0a000001 ∷ []

abbrev outside : List ℕ
outside = 0xc0000201 ∷ []

abbrev server : List ℕ
server = 0x0a000002 ∷ []

abbrev headers : List ℕ → List ℕ → ℕ → ℕ → Headers
headers saddr daddr sport dport = record {
  npc = record {
    info = 0x29;
    alen = 4;
    hlen = 20;
    proto = 17;
    src = saddr;
    dst = daddr;
    ip_len = 140;
    sport = sport;
    dport = dport;
    icmp_id = 0;
    th_seq = 0;
    th_ack_no = 0;
    th_off = 0;
    th_flags = 0;
    th_win = 0;
    tcp_opts = none;
    ifid = 1;
    ckey = none;
  };
  ip_sum = 0x1111;
  l4_sum = 0x1c46;
}

abbrev query : Headers
query = headers inside server 40000 53

-- The answer to the query as it leaves, from port 1024 of the outside address.
abbrev answer : Headers
answer = headers server outside 53 1024

abbrev policy : ℕ → ℕ → Policy
policy flags algo = record {
  refcnt = 1;
  id = 7;
  type = natout;
  flags = flags;
  alen = 4;
  taddr = 0xc0000201 ∷ 0 ∷ 0 ∷ 0 ∷ [];
  tmask = 255;
  tport = 0;
  tid = 0;
  algo = algo;
  extra = 0;
  nat_list = [];
}

dnat_translate-reply_example :
    ends_of
      (dnat_translate
        (λ x. x)
        answer
        (policy 3 0)
        (new_entry query.npc 0 (policy 3 0) 0 outside 1024)
        back).1.npc
    ≡ swap_ends (ends_of query.npc)
unfolding new_entry dnat_translate nat_which napt_rwr rwrport rwrip rwrcksum
dnat_translate-reply_example =
    dnat_translate-reply (λ x. x) query answer (policy 3 0) 0 0 outside 1024 (λ x. refl)
      (inr (refl, λ e. absurd (omega (arith, e)))) refl refl

abbrev no_ports : Portmap maps
no_ports = portmap_create maps (λ b. []) 0 1024 65535

abbrev no_entry : Entry
no_entry = new_entry query.npc 0 (policy 0 0) 0 [] 0

abbrev idle : NatState maps
idle = record {
  policies = λ p. policy 0 0;
  entries = λ e. no_entry;
  next = 0;
  freed = [];
  portmap = no_ports;
}

abbrev no_conn : Conn
no_conn = new_conn query.npc 0 false 0 zero_state [] []

abbrev nat_rule : Rule
nat_rule = record {
  attr = 0x30000000;
  ifid = 0;
  skip_to = 0;
  code = none;
  natp = some 0;
  rproc = none;
  subset = [];
  priority = pos 0;
  parent = none;
  id = 0;
  name = "";
  key = [];
}

abbrev natset : Ruleset
natset = record { all = 0 ∷ []; dynamic = []; gc = []; idcnt = 0; slots = 1; items = 0 ∷ [] }

abbrev no_table : Table maps assoc_lpm
no_table = record {
  map = maps.empty;
  gc = [];
  trie = [];
  blob = 0;
  elements = λ i. [];
  allocated = λ i. 0;
  list = [];
  nitems = 0;
  type = ipset;
  id = 0;
  refcnt = 0;
  name = "";
  ents = λ e. record { preflen = 0; alen = 0; addr = [] };
  next = 0;
}

abbrev tables : Tables maps assoc_lpm
tables = record { at = λ q. no_table; destroyed = [] }

abbrev setting : Setting maps assoc_lpm
setting = record {
  filter = λ code. false;
  rules = λ r. nat_rule;
  natset = natset;
  params = record {
    key = record { connkey_interface = 1; connkey_direction = 0 };
    state = record {
      generic_timeouts = 0 ∷ 30 ∷ 60 ∷ [];
      gre_timeout = 86400;
      tcp = record {
        max_ack_win = 66000;
        strict_order_rst = 1;
        timeouts = 30 ∷ 86400 ∷ 21600 ∷ 10 ∷ 240 ∷ [];
      };
    };
    step = 256;
    interval_min = 50;
    interval_max = 5000;
  };
  tracking = true;
  conn_memory = true;
  now = 100;
  supply = record { entry = true; bitmap = true; random = 5 };
  tables = tables;
  tableset = tableset_create 0;
  alg_match = none;
  alg_exec = λ x. x;
}

abbrev world : World maps conns assoc_lpm
world = record { nat = idle; db = conndb_create conns (λ c. no_conn) 0; headers = query }

idle-IsCounted : IsCounted maps idle (λ p. 1)
idle-IsCounted = record { counted = λ r. refl; listed = λ r e i. absurd i }

do_nat-IsBalanced_example :
    IsBalanced maps conns assoc_lpm setting
      (λ p. 1)
      idle
      (do_nat maps conns assoc_lpm setting world none 2).1.nat
do_nat-IsBalanced_example =
    do_nat-IsBalanced maps conns assoc_lpm setting (λ p. 1) world none 2 idle-IsCounted
      (λ r. omega arith) (λ p e. omega arith)

natpolicy_cmp-getaddr_example :
    natpolicy_cmp
      (nat_getaddr maps assoc_lpm tables (tableset_create 0) query.npc (policy 0x01000000 3)).1
      (policy 0x01000000 3)
    ≡ not (3 == 3)
natpolicy_cmp-getaddr_example =
    natpolicy_cmp-getaddr maps assoc_lpm tables (tableset_create 0) query.npc (policy 0x01000000 3)
      (omega arith)

abbrev saved_entry : EntryDict
saved_entry = record {
  ifname = none;
  alen = some 4;
  oaddr = some (4, inside);
  oport = some 40000;
  taddr = some (4, outside);
  tport = some 0;
  policy = some 7;
}

abbrev found : ℕ → Option ℕ
found id = some 0

abbrev restored : NatState maps
restored = (nat_import maps (λ name. none) true found idle ifmap_init saved_entry 0).1

restored_entry :
    (nat_import maps (λ name. none) true found idle ifmap_init saved_entry 0).0 ≡ some 0
unfolding nat_import import_port imported
restored_entry = refl

nat_import-export_example :
    ((restored.entries 0).alen ≡ 0)
    × ((nat_import maps
          (λ name. some 3)
          false
          (λ id. some 1)
          idle
          ifmap_init
          (nat_export ifmap_init restored.policies (restored.entries 0))
          0).0
        ≡ none)
nat_import-export_example =
    nat_import-export maps (λ name. none) (λ name. some 3) true false found (λ id. some 1) idle idle
      ifmap_init ifmap_init ifmap_init restored.policies saved_entry 0 0 0 restored_entry

-- A policy with one entry, of a connection that is not expired.
abbrev busy : NatState maps
busy = record idle {
  policies = λ p. record (policy 0 0) { refcnt = 2; nat_list = 0 ∷ [] };
  next = 1;
}

natpolicy_destroy-freed_example :
    ((end_entries maps assoc_lpm true
        (natpolicy_destroy maps conns busy world.db 0).0
        (0 ∷ [])).freed
      ≡ 0 ∷ [])
    × ((e : ℕ)
        → In e (0 ∷ [])
        → ((natpolicy_destroy maps conns busy world.db 0).1.conns
            (busy.entries e).conn).flags.expire
          ≡ true)
unfolding new_entry
natpolicy_destroy-freed_example =
    natpolicy_destroy-freed maps conns assoc_lpm true busy world.db 0 refl (omega arith)
      (λ e i. refl)
