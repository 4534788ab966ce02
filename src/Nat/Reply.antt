-- ===== src/Nat/Reply.antt =====
-- The two directions of a translation, src/kern/npf_nat.c: what comes back to the end that was translated.
use npf.Prelude.{
  ℕ, ◌≡◌, ◌≢◌, ◌⊎◌, inl, inr, refl, sym, ap, ◌∙◌, arith, Bool, true, ◌||◌, Bool-cases, &&-right,
  List, ◌==◌, ==→ne, if◌then◌else◌,
}
use npf.Packet.{Flow, forw, back, Cache, has_flag}
use npf.Connkey.{Which, src, dst, Ends, swap_ends}
use npf.State.{ipproto_tcp, ipproto_udp}
use npf.Inet.Rewrite.{Headers, addr_of, port_of, rwrip, rwrport, rwrcksum, napt_rwr}
use npf.Nat.{Policy, Entry, natout, nat_ports}
use npf.Nat.Entries.{nat_which, is_ported, new_entry}
use npf.Nat.Translate.{dnat_translate, marked, npc_alg_exec, target}

-- The two ends of a packet.
abbrev pub ends_of : Cache → Ends
ends_of npc = record { saddr = npc.src; daddr = npc.dst; sid = npc.sport; did = npc.dport }

-- The ends after the address, and the port if it is not 0, of one of them are written.
abbrev pub rewritten : Ends → Which → List ℕ → ℕ → Ends
rewritten e src addr port = record e { saddr = addr; sid = if port == 0 then e.sid else port }
rewritten e dst addr port = record e { daddr = addr; did = if port == 0 then e.did else port }

-- The written end.
abbrev pub end_addr : Ends → Which → List ℕ
end_addr e src = e.saddr
end_addr e dst = e.daddr

abbrev pub end_port : Ends → Which → ℕ
end_port e src = e.sid
end_port e dst = e.did

abbrev ends_with : List ℕ → List ℕ → ℕ → ℕ → Ends
ends_with saddr daddr sid did = record { saddr = saddr; daddr = daddr; sid = sid; did = did }

rwrcksum-npc :
    (h : Headers) (which : Which) (addr : List ℕ) (port : ℕ)
    → (rwrcksum h which addr port).npc ≡ h.npc
unfolding rwrcksum
rwrcksum-npc h which addr port = ground arith

-- The protocol has ports.
abbrev pub has_ports : Cache → Bool
has_ports npc = (npc.proto == ipproto_tcp) || (npc.proto == ipproto_udp)

napt_rwr-ends :
    (h : Headers) (which : Which) (addr : List ℕ) (port : ℕ)
    → (port ≡ 0) ⊎ (has_ports h.npc ≡ true)
    → ends_of (napt_rwr h which addr port).1.npc ≡ rewritten (ends_of h.npc) which addr port
unfolding napt_rwr rwrip rwrport
napt_rwr-ends h src addr port ok =
    let base = rwrcksum-npc h src addr port in
    elim (Bool-cases (port == 0)) [
      | inl nought ↦ rw nought (ap (λ n. ends_with addr n.dst n.sport n.dport) base)
      | inr some_port ↦ elim ok [
        | inl z ↦ absurd (==→ne port 0 some_port z)
        | inr ported ↦ rw some_port (rw ported (ap (λ n. ends_with addr n.dst port n.dport) base))
      ]
    ]
napt_rwr-ends h dst addr port ok =
    let base = rwrcksum-npc h dst addr port in
    elim (Bool-cases (port == 0)) [
      | inl nought ↦ rw nought (ap (λ n. ends_with n.src addr n.sport n.dport) base)
      | inr some_port ↦ elim ok [
        | inl z ↦ absurd (==→ne port 0 some_port z)
        | inr ported ↦ rw some_port (rw ported (ap (λ n. ends_with n.src addr n.sport port) base))
      ]
    ]

dnat-ends :
    (alg_exec : Headers → Headers) (h : Headers) (np : Policy) (nt : Entry) (flow : Flow)
    → ((x : Headers) → alg_exec x ≡ x)
    → ((target nt flow).1 ≡ 0) ⊎ (has_ports h.npc ≡ true)
    → ends_of (dnat_translate alg_exec h np nt flow).1.npc
      ≡ rewritten (ends_of h.npc) (nat_which np.type flow) (target nt flow).0 (target nt flow).1
unfolding dnat_translate
dnat-ends alg_exec h np nt flow plain ok =
    let which = nat_which np.type flow in
    let to = target nt flow in
    elim (Bool-cases (has_flag h.npc.info npc_alg_exec)) [
      | inl seen ↦ rw seen (napt_rwr-ends h which to.0 to.1 ok)
      | inr fresh ↦ rw fresh (
          ap (λ x. ends_of (napt_rwr x which to.0 to.1).1.npc) (plain (marked h))
          ∙ napt_rwr-ends (marked h) which to.0 to.1 ok)
    ]

abbrev other_end : Which → Which
other_end src = dst
other_end dst = src

nat_which-back : (type : ℕ) → nat_which type back ≡ other_end (nat_which type forw)
unfolding nat_which
nat_which-back type = elim (Bool-cases (type == natout)) [
  | inl out ↦ rw out refl
  | inr other ↦ rw other refl
]

-- The ports of a translation and of its reversal: none is written, or the original one is.
abbrev IsReversible : ℕ → ℕ → ℕ → Type 0
IsReversible port tport oport =
    ((tport ≡ 0) × ((oport ≡ 0) ⊎ (oport ≡ port))) ⊎ ((oport ≡ port) × (oport ≢ 0))

back_port :
    (port tport oport : ℕ)
    → IsReversible port tport oport
    → (if oport == 0 then (if tport == 0 then port else tport) else oport) ≡ port
back_port port tport oport cases = ground arith

there_and_back :
    (e : Ends) (which : Which) (taddr : List ℕ) (tport oport : ℕ)
    → IsReversible (end_port e which) tport oport
    → rewritten
        (swap_ends (rewritten e which taddr tport))
        (other_end which)
        (end_addr e which)
        oport
      ≡ swap_ends e
there_and_back e src taddr tport oport cases =
    ap (λ x. ends_with e.daddr e.saddr e.did x) (back_port e.sid tport oport cases)
there_and_back e dst taddr tport oport cases =
    ap (λ x. ends_with e.daddr e.saddr x e.sid) (back_port e.did tport oport cases)

end_addr-ends : (npc : Cache) (which : Which) → end_addr (ends_of npc) which ≡ addr_of npc which
end_addr-ends npc src = refl
end_addr-ends npc dst = refl

end_port-ends : (npc : Cache) (which : Which) → end_port (ends_of npc) which ≡ port_of npc which
end_port-ends npc src = refl
end_port-ends npc dst = refl

-- The port that a new entry saves is 0, or the packet's.
saved_port :
    (np : Policy) (npc : Cache) (which : Which) (tport : ℕ)
    → (tport ≡ 0) ⊎ ((is_ported np npc ≡ true) × (port_of npc which ≢ 0))
    → IsReversible
        (end_port (ends_of npc) which)
        tport
        (if is_ported np npc then port_of npc which else 0)
saved_port np npc which tport ok = elim (Bool-cases (is_ported np npc)) [
  | inr bare ↦ elim ok [
    | inl z ↦ rw bare (inl (z, inl refl))
    | inr (ported, ne) ↦ cc (sym bare ∙ ported)
  ]
  | inl ported ↦
      let same = sym (end_port-ends npc which) in
      elim ok [ inl z ↦ rw ported (inl (z, inr same)) | inr (q, ne) ↦ rw ported (inr (same, ne)) ]
]

ported_has : (np : Policy) (npc : Cache) → is_ported np npc ≡ true → has_ports npc ≡ true
ported_has np npc e = &&-right (has_flag np.flags nat_ports) (has_ports npc) e

-- A packet for which an entry is created is translated forwards, and an answer to what leaves, of the
-- same protocol and with its ends exchanged, is translated backwards: when no gateway changes the
-- packets, and either no port is translated or the packet has one to save, the answer arrives with the
-- ends of the original packet exchanged, whatever the policy, the translation address and the port.
pub dnat_translate-reply :
    (alg_exec : Headers → Headers) (h r : Headers) (np : Policy) (p c : ℕ) (taddr : List ℕ)
    (tport : ℕ)
    → ((x : Headers) → alg_exec x ≡ x)
    → (tport ≡ 0) ⊎ ((is_ported np h.npc ≡ true) × (port_of h.npc (nat_which np.type forw) ≢ 0))
    → r.npc.proto ≡ h.npc.proto
    → ends_of r.npc
      ≡ swap_ends
          (ends_of (dnat_translate alg_exec h np (new_entry h.npc p np c taddr tport) forw).1.npc)
    → ends_of (dnat_translate alg_exec r np (new_entry h.npc p np c taddr tport) back).1.npc
      ≡ swap_ends (ends_of h.npc)
unfolding new_entry
dnat_translate-reply alg_exec h r np p c taddr tport plain ok proto answer =
    let nt = new_entry h.npc p np c taddr tport in
    let which = nat_which np.type forw in
    let oport = if is_ported np h.npc then port_of h.npc which else 0 in
    let forw_ok : (tport ≡ 0) ⊎ (has_ports h.npc ≡ true) = elim ok [
      | inl z ↦ inl z
      | inr (ported, ne) ↦ inr (ported_has np h.npc ported)
    ] in
    let back_ok : (oport ≡ 0) ⊎ (has_ports r.npc ≡ true) = elim (Bool-cases (is_ported np h.npc)) [
      | inr bare ↦ inl (rw bare refl)
      | inl ported ↦
          inr
            (ap (λ x. (x == ipproto_tcp) || (x == ipproto_udp)) proto ∙ ported_has np h.npc ported)
    ] in
    let out = dnat-ends alg_exec h np nt forw plain forw_ok in
    let home = dnat-ends alg_exec r np nt back plain back_ok in
    home
    ∙ (ap (λ x. rewritten x (nat_which np.type back) (addr_of h.npc which) oport)
          (answer ∙ ap swap_ends out)
        ∙ (ap
              (λ w.
                rewritten (swap_ends (rewritten (ends_of h.npc) which taddr tport)) w
                  (addr_of h.npc which) oport)
              (nat_which-back np.type)
            ∙ (ap
                  (λ a.
                    rewritten (swap_ends (rewritten (ends_of h.npc) which taddr tport))
                      (other_end which) a oport)
                  (sym (end_addr-ends h.npc which))
                ∙ there_and_back (ends_of h.npc) which taddr tport oport
                    (saved_port np h.npc which tport ok))))
