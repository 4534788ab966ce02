-- ===== src/Tcp/Fsm.antt =====
-- The states, flag cases and transition table of src/kern/npf_state_tcp.c. A state is its number.
pub mod Table
use npf.Prelude.{ℕ, ◌/◌, ◌^◌, ◌*◌, List, [], ◌∷◌, bit_and, bit_or, get_or}
use npf.Packet.{Flow, forw, back, th_syn, th_fin, th_ack}

-- `NPF_TCPS_OK`: the state stays as it is.
abbrev pub tcps_ok : ℕ
tcps_ok = 255

abbrev pub tcps_closed : ℕ
tcps_closed = 0

abbrev pub tcps_syn_sent : ℕ
tcps_syn_sent = 1

abbrev pub tcps_simsyn_sent : ℕ
tcps_simsyn_sent = 2

abbrev pub tcps_syn_received : ℕ
tcps_syn_received = 3

abbrev pub tcps_established : ℕ
tcps_established = 4

abbrev pub tcps_fin_sent : ℕ
tcps_fin_sent = 5

abbrev pub tcps_fin_received : ℕ
tcps_fin_received = 6

abbrev pub tcps_close_wait : ℕ
tcps_close_wait = 7

abbrev pub tcps_fin_wait : ℕ
tcps_fin_wait = 8

abbrev pub tcps_closing : ℕ
tcps_closing = 9

abbrev pub tcps_last_ack : ℕ
tcps_last_ack = 10

abbrev pub tcps_time_wait : ℕ
tcps_time_wait = 11

abbrev pub tcp_nstates : ℕ
tcp_nstates = 12

abbrev pub tcpfc_invalid : ℕ
tcpfc_invalid = 0

abbrev pub tcpfc_syn : ℕ
tcpfc_syn = 1

abbrev pub tcpfc_synack : ℕ
tcpfc_synack = 2

abbrev pub tcpfc_ack : ℕ
tcpfc_ack = 3

abbrev pub tcpfc_fin : ℕ
tcpfc_fin = 4

abbrev pub tcpfc_count : ℕ
tcpfc_count = 5

-- `npf_tcpfl2case`: the index of a flag combination, then 3 bits of the packed mask.
unfoldable pub tcpfl2case : ℕ → ℕ
tcpfl2case tcpfl =
    let i = bit_or (bit_and tcpfl (bit_or th_syn th_fin)) (bit_and tcpfl th_ack / 4) in
    bit_and (0x2430140 / 2 ^ (i * 4)) 7

-- A row of `npf_tcp_fsm`: the entries for the five flag cases, in the order INVALID, SYN, SYNACK,
-- ACK, FIN. What the initialiser leaves out is 0, `NPF_TCPS_CLOSED`.
abbrev pub Row : Type 0
Row = List ℕ

abbrev pub row : ℕ → ℕ → ℕ → ℕ → Row
row syn synack ack fin = tcps_closed ∷ syn ∷ synack ∷ ack ∷ fin ∷ []

abbrev pub empty_row : Row
empty_row = row tcps_closed tcps_closed tcps_closed tcps_closed

-- `npf_tcp_fsm`: for each state the forward row, then the backward row.
abbrev pub tcp_fsm : List (Row × Row)
tcp_fsm =
    (row tcps_syn_sent 0 0 0, empty_row)
    ∷ (row tcps_ok 0 0 0, row tcps_simsyn_sent tcps_syn_received 0 0)
    ∷ (row tcps_ok tcps_syn_received 0 0, row tcps_ok tcps_syn_received 0 tcps_fin_received)
    ∷ (row tcps_ok 0 tcps_established tcps_fin_sent, row 0 tcps_ok tcps_ok tcps_fin_received)
    ∷ (row 0 0 tcps_ok tcps_fin_sent, row 0 0 tcps_ok tcps_fin_received)
    ∷ (row 0 0 tcps_ok tcps_ok, row 0 0 tcps_fin_wait tcps_closing)
    ∷ (row 0 0 tcps_close_wait tcps_closing, row 0 0 tcps_ok tcps_ok)
    ∷ (row 0 0 tcps_ok tcps_last_ack, row 0 0 tcps_ok tcps_last_ack)
    ∷ (row 0 0 tcps_ok tcps_last_ack, row 0 0 tcps_ok tcps_last_ack)
    ∷ (row 0 0 tcps_last_ack 0, row 0 0 tcps_last_ack 0)
    ∷ (row 0 0 tcps_time_wait 0, row 0 0 tcps_time_wait 0)
    ∷ (row tcps_syn_sent 0 0 0, empty_row)
    ∷ []

abbrev pub pick : Flow → Row × Row → Row
pick forw p = p.0
pick back p = p.1

-- `npf_tcp_fsm[state][flow][flagcase]`.
unfoldable pub transition : ℕ → Flow → ℕ → ℕ
transition state flow flagcase =
    get_or (pick flow (get_or tcp_fsm state (empty_row, empty_row))) flagcase tcps_closed
