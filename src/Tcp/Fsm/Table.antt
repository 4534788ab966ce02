-- ===== src/Tcp/Fsm/Table.antt =====
-- What holds of every entry of the transition table and of every combination of TCP flags. The
-- checks run over the whole table by evaluation.
use npf.Prelude.{
  ℕ, ◌<◌, ◌≡◌, refl, Bool, true, false, ◌&&◌, ◌||◌, ◌⊎◌, ltb, ◌==◌, arith, holds_below,
  holds_below_at, &&-left, &&-right, ==→eq, ltb→lt,
}
use npf.Packet.{Flow, forw, back, has_flag, th_syn, th_fin, th_ack}
use npf.Tcp.Fsm

-- The flag case that the comment of `npf_tcpfl2case` describes, by the three flags.
unfoldable pub flag_case : Bool → Bool → Bool → ℕ
flag_case true true ack = Fsm.tcpfc_invalid
flag_case true false true = Fsm.tcpfc_synack
flag_case true false false = Fsm.tcpfc_syn
flag_case false true ack = Fsm.tcpfc_fin
flag_case false false true = Fsm.tcpfc_ack
flag_case false false false = Fsm.tcpfc_invalid

abbrev case_ok : ℕ → Bool
case_ok f =
    Fsm.tcpfl2case f == flag_case (has_flag f th_syn) (has_flag f th_fin) (has_flag f th_ack)

flag_table : holds_below case_ok 256 ≡ true
unfolding holds_below Fsm.tcpfl2case flag_case
flag_table = refl

-- For each value of the flag byte `npf_tcpfl2case` gives SYNACK, SYN, FIN, ACK or INVALID by the SYN,
-- FIN and ACK flags alone: SYN with FIN is invalid, FIN counts the same with and without ACK.
pub tcpfl2case_lem :
    (tcpfl : ℕ)
    → tcpfl < 256
    → Fsm.tcpfl2case tcpfl
      ≡ flag_case (has_flag tcpfl th_syn) (has_flag tcpfl th_fin) (has_flag tcpfl th_ack)
tcpfl2case_lem f h = ==→eq _ _ (holds_below_at case_ok 256 f h flag_table)

case_below : ℕ → Bool
case_below f = ltb (Fsm.tcpfl2case f) Fsm.tcpfc_count

case_below_table : holds_below case_below 256 ≡ true
unfolding holds_below Fsm.tcpfl2case case_below
case_below_table = refl

-- The assertion of `npf_tcpfl2case`.
pub tcpfl2case-lt : (tcpfl : ℕ) → tcpfl < 256 → Fsm.tcpfl2case tcpfl < Fsm.tcpfc_count
unfolding case_below
tcpfl2case-lt f h = ltb→lt _ _ (holds_below_at case_below 256 f h case_below_table)

-- A test holds of every entry of the table, in both directions.
abbrev pub every : (ℕ → Flow → ℕ → Bool) → Bool
every p =
    holds_below (λ s. holds_below (λ c. p s forw c && p s back c) Fsm.tcpfc_count) Fsm.tcp_nstates

pub every_sound :
    (p : ℕ → Flow → ℕ → Bool)
    → every p ≡ true
    → (s : ℕ) (flow : Flow) (c : ℕ) → s < Fsm.tcp_nstates
    → c < Fsm.tcpfc_count
    → p s flow c ≡ true
every_sound p all s flow c hs hc =
    both flow (holds_below_at _ Fsm.tcpfc_count c hc (holds_below_at _ Fsm.tcp_nstates s hs all))
  where
    both : (f : Flow) → (p s forw c && p s back c) ≡ true → p s f c ≡ true
    both forw h = &&-left _ _ h
    both back h = &&-right _ _ h

entry_ok : ℕ → Flow → ℕ → Bool
entry_ok s flow c = let n = Fsm.transition s flow c in n == Fsm.tcps_ok || ltb n Fsm.tcp_nstates

entries_ok : every entry_ok ≡ true
unfolding holds_below Fsm.transition entry_ok
entries_ok = refl

-- An entry keeps the state, or is one of the twelve states.
pub transition-IsState :
    (s : ℕ) (flow : Flow) (c : ℕ)
    → s < Fsm.tcp_nstates
    → c < Fsm.tcpfc_count
    → (Fsm.transition s flow c ≡ Fsm.tcps_ok) ⊎ (Fsm.transition s flow c < Fsm.tcp_nstates)
unfolding entry_ok
transition-IsState s flow c hs hc = ground (arith, every_sound entry_ok entries_ok s flow c hs hc)
