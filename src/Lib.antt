-- ===== src/Lib.antt =====
-- A model of the NPF packet filter, with proofs about the parts that decide what happens to a packet
-- of a connection.
--
-- The program. NPF inspects each packet of an interface. The packet is parsed into a cache
-- (`npf_cache_t`). A key made from its addresses, ports and protocol finds the connection that it
-- belongs to; the state tracking then decides whether it fits the connection and moves the state.
-- What has no connection goes through the rules, which may translate it (with a port from the port
-- map and updated checksums) and may run extensions on it, such as the rate limiter. Numbers that
-- the administrator can set live in the parameter registry.
--
-- The files, and the sources that they model (paths from the root of the repository):
-- - Packet: the packet cache and the TCP header, src/kern/npf.h and src/kern/npf_inet.c
--   (`npf_tcpsaw`). Packet/Options: `npf_fetch_tcpopts`; Packet/Options/Scan: its proofs.
-- - Tcp: src/kern/npf_state_tcp.c. Tcp/Fsm: the flag cases (`npf_tcpfl2case`) and the table
--   `npf_tcp_fsm`, entry by entry; Tcp/Fsm/Table: what holds of all entries, checked by evaluation.
--   Tcp/Window: `npf_tcp_inwindow`, as its stages in the order of the source; Tcp/Window/Verdicts,
--   Bounds and Spec: what it changes, the ranges it keeps, and the four boundaries that the code checks,
--   over integers.
--   Tcp/Track: `npf_state_tcp` and `npf_state_tcp_timeout`; Tcp/Track/Steps and Handshake: one
--   segment, and sequences of them.
-- - State: src/kern/npf_state.c, `npf_state_init`, `npf_state_inspect`, `npf_state_destroy` and
--   `npf_state_etime`; State/Generic: its proofs.
-- - Thmap: the interface of the thmap library, which is not in the repository: a parameter of the
--   parts that use a map, with the laws that its manual page states. Thmap/Assoc: an association
--   list that meets them.
-- - Params: src/kern/npf_params.c. Params/Tables: the parameters that the subsystems register.
--   Params/Registry, Known and Register: the proofs on setting and on registering.
-- - Connkey: src/kern/npf_connkey.c. Connkey/Layout, Fields, Adjust and Match: the words of a key,
--   reading it back, changing it, and the keys of both directions of a flow.
-- - Conn: the connection structure of src/kern/npf_conn.h and the tests on it of src/kern/npf_conn.c.
--   Conn/Ops: the operations of npf_conn.c. Conn/Db: src/kern/npf_conndb.c, the map and the lists;
--   Conn/Gc: its collector. A connection is a number, which stands for its address, and the
--   database holds the memory; the map is the parameter of Thmap. Conn/Index, Invariant, Establish and
--   Setnat: the map against the connections; Conn/Sound, Linked and Collect: the whole
--   invariant, operation by operation; Conn/Reach: sequences of operations. Conn/Reply, Destroyed and
--   Flush: what a lookup finds, and what the collector destroys and leaves.
-- - Ruleset: the rules of src/kern/npf_ruleset.c. Ruleset/Inspect: `npf_ruleset_inspect` and what it
--   calls, the filter code being a parameter. Ruleset/Config: the operations on rules and on dynamic
--   groups. Ruleset/Load: `npf_mk_rules` of src/kern/npf_ctl.c. Ruleset/Forward and Ends: where
--   the inspection ends; Ruleset/Sections: what it decides; Ruleset/Priority and
--   AddRemove: the dynamic rules.
-- - Lpm: the interface of the lpm library, a store of values under network prefixes, which is not in
--   the repository; Lpm/Assoc: a list of prefixes that meets it.
-- - Table: the tables of addresses, src/kern/npf_tableset.c. Table/Ops: the operations on one table,
--   on each of its four types; Table/Set: the sets of tables, by id and by name, and their reload.
--   Table/Ipset, Calls, Steps and AsSet: a table of single addresses; Table/Prefixes: a table of networks;
--   Table/References, Reload and Preserve: the references to the tables through a reload.
-- - Nat: src/kern/npf_nat.c. Nat/Policies: the policies and their references; Nat/Entries: the
--   selection of an address and a port, the creation and the end of an entry; Nat/Translate: the two
--   translations; Nat/Perform: `npf_do_nat`, which composes them with the ruleset and the connections;
--   Nat/Import: the serialisation. Nat/Counted, Balance and Held: the references; Nat/Reply: both
--   directions; Nat/Rotation: the comparison of policies; Nat/Drain: `npf_natpolicy_destroy`.
-- - Libnpf: `_npf_rules_process` of src/libnpf/npf.c, which lays the nested rules of a configuration out
--   for the kernel; Libnpf/Flat: the positions and the marks.
-- - Portmap: src/kern/npf_portmap.c. Portmap/Word: the packed words; Portmap/Word/IsSet: their test,
--   and Portmap/Word/Put: putting a value in.
--   Portmap/Bitmap: `bitmap_set` and `bitmap_clr`. Portmap/Ports: the operations on addresses;
--   Portmap/Ports/Search: the loop of `npf_portmap_get`.
-- - Ratelimit: src/kern/npf_ext_ratelimit.c; Ratelimit/Step and Rate: one packet, and a sequence.
-- - Inet: the checksums and addresses of src/kern/npf_inet.c; Inet/Checksum and Address: the proofs.
--   Inet/Rewrite: `npf_napt_rwr` and what it calls; Inet/Npt66: `npf_npt66_rwr`.
-- - Ifmap: the map of interfaces, src/kern/npf_if.c; Ifmap/Register: its proofs.
-- - Prelude: names of the libraries that are passed on, Boolean tests, lists, the integers, machine
--   words, and lemmas on the bit operations.
-- The Tests files apply the theorems to concrete packets, keys, words and parameters.
--
-- The model. A pointer argument that a function writes through becomes part of its result; a record
-- stands for each structure. Numbers of w bits are natural numbers with `% 2 ^ w` written out where
-- the source can wrap; a conversion to a signed type is `signed32` or `signed64`. Header fields are
-- in host order. An assertion of the source that the model does not enforce by its types is `none`
-- where the function could go on with a wrong value, and a hypothesis of the theorems otherwise; the
-- assertion of the inspection that a rule leads to a later slot is neither, and follows for a loaded
-- ruleset.
--
-- Loops. The option scan runs on fuel, one more than the bytes of the options; each step takes at
-- least one byte, so this is enough (`fetch_tcpopts-wscale`). The search for a port runs on as much
-- fuel as there are ports; its steps return to the first port by then (`find_port_total`). The inspection of a ruleset
-- runs on as much fuel as it has rules, since every rule leads to a later slot
-- (`ruleset_inspect-mk_rules`). The inspection of the NAT ruleset runs
-- on its number of slots. The other loops are recursions on their data.
--
-- What is not modelled. The port map is run by one thread, so that each compare-and-swap succeeds and
-- no loop starts over; the locks of the rate limiter and of the connections are left out: an operation
-- on a connection is one step. Memory of a connection is not used again after its destruction. A
-- flush of the database waits at the first connection that is referenced; the model of it ends there,
-- with what the flush has done by then. An interface name is ASCII, and `IFNAMSIZ` is 16. The policy of
-- a rule of the NAT ruleset and the table of a policy are taken for granted by the source; without them,
-- or without enough steps of the inspection, there is no policy or no address in the model.
-- A table of constants is two functions of its blob. What the application gateways do to a packet under
-- translation is an argument, and the sharing of policies between the rulesets of a reload is left out. The gateways and
-- the handler (src/kern/npf_alg.c, npf_handler.c) are not modelled, nor is the parsing of a packet into the cache, which rests on
-- network buffers. Allocation is a truth value that says whether it succeeds. Random numbers and the
-- time are arguments. The rest of the repository (the rest of src/libnpf, src/npfctl, src/lib, src/npftest,
-- app) is configuration, output, tests and glue.
pub mod Prelude
pub mod Packet
pub mod Tcp
pub mod State
pub mod Conn
pub mod Ifmap
pub mod Ruleset
pub mod Lpm
pub mod Table
pub mod Nat
pub mod Libnpf
pub mod Thmap
pub mod Params
pub mod Connkey
pub mod Portmap
pub mod Ratelimit
pub mod Inet
