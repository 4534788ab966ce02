-- ===== src/Params/Tables.antt =====
-- The parameters that the subsystems register, from src/kern/npf_params.c, npf_state.c,
-- npf_state_tcp.c, npf_conn.c, npf_conndb.c and npf_portmap.c. Each variable has its own number.
use Prim.Native.String.{String}
use npf.Prelude.{ℕ, ◌*◌, ◌-◌, ◌^◌, List, [], ◌∷◌, ◌++◌, pos}
use npf.Params.{Param}

abbrev pub int_max : ℕ
int_max = 2 ^ 31 - 1

abbrev pub param : String → ℕ → ℕ → ℕ → ℕ → Param
param name valp default_val min max = record {
  name = name;
  valp = valp;
  default_val = pos default_val;
  min = pos min;
  max = pos max;
}

-- `npf_param_general_register`
abbrev pub general_params : List Param
general_params =
    param "ip4.reassembly" 0 1 0 1
    ∷ param "ip4.drop_options" 1 0 0 1
    ∷ param "ip6.reassembly" 2 0 0 1
    ∷ param "ip6.drop_options" 3 0 0 1
    ∷ []

-- `npf_state_sysinit`
abbrev pub generic_state_params : List Param
generic_state_params =
    param "state.generic.timeout.closed" 4 0 0 int_max
    ∷ param "state.generic.timeout.new" 5 30 0 int_max
    ∷ param "state.generic.timeout.established" 6 60 0 int_max
    ∷ param "state.generic.timeout.gre" 7 (24 * 60 * 60) 0 int_max
    ∷ []

-- `npf_state_tcp_sysinit`
abbrev pub tcp_state_params : List Param
tcp_state_params =
    param "state.tcp.timeout.new" 8 30 0 int_max
    ∷ param "state.tcp.timeout.established" 9 (60 * 60 * 24) 0 int_max
    ∷ param "state.tcp.timeout.half_close" 10 (60 * 60 * 6) 0 int_max
    ∷ param "state.tcp.timeout.close" 11 10 0 int_max
    ∷ param "state.tcp.timeout.time_wait" 12 (60 * 2 * 2) 0 int_max
    ∷ param "state.tcp.strict_order_rst" 13 1 0 1
    ∷ param "state.tcp.max_ack_win" 14 66000 0 int_max
    ∷ []

-- `npf_portmap_init`
abbrev pub portmap_params : List Param
portmap_params =
    param "portmap.min_port" 15 1024 1024 65535 ∷ param "portmap.max_port" 16 49151 1024 65535 ∷ []

-- `npf_conn_init`
abbrev pub conn_params : List Param
conn_params = param "state.key.interface" 17 1 0 1 ∷ param "state.key.direction" 18 1 0 1 ∷ []

-- `npf_conndb_sysinit`
abbrev pub conndb_params : List Param
conndb_params =
    param "gc.step" 19 256 1 int_max
    ∷ param "gc.interval_min" 20 50 10 10000
    ∷ param "gc.interval_max" 21 5000 10 10000
    ∷ []

abbrev pub all_params : List Param
all_params =
    general_params
    ++ (generic_state_params
        ++ (tcp_state_params ++ (portmap_params ++ (conn_params ++ conndb_params))))
