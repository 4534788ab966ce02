-- ===== src/Nat/Held.antt =====
-- `npf_do_nat` of src/kern/npf_nat.c keeps the references on the policies in balance.
use npf.Prelude.{
  ℕ, ◌+◌, ◌≤◌, ◌<◌, ◌≡◌, inl, inr, refl, ap, ◌∙◌, subst, arith, true, not, ◌||◌, Bool-cases,
  Option-cases, List, Option, none, some, ◌==◌, ==→eq, ==→ne, update, update_same, update_other,
  u32_mod, add32, length,
}
use npf.Packet.{Flow, Cache, iscached, has_flag}
use npf.Thmap.{Thmap}
use npf.Lpm.{Lpm}
use npf.Conn.{npc_ip46, npc_layer4}
use npf.Conn.Ops.{conn_setnat, conn_establish}
use npf.Nat.{Policy, Entry, NatState, nat_static}
use npf.Nat.Policies.{policy_hold}
use npf.Nat.Entries.{nat_create}
use npf.Nat.Translate.{NatErrno}
use npf.Nat.Perform.{
  Setting, World, type_which, matched_policy, nat_inspect, associate, finish_conn, apply_policy,
  known_entry, do_nat,
}
use npf.Nat.Counted.{
  plus_ref, plus_ref_same, plus_ref_other, IsCounted, IsSmall, hold-IsCounted, release-IsCounted,
}
use npf.Nat.Balance.{IsMade, Outcome, create_counted, destroy-IsCounted}

module _ (maps : Thmap (List ℕ) ℕ) (conns : Thmap (List ℕ) (ℕ × Flow)) (lpms : Lpm)
    (s : Setting maps lpms) (own : ℕ → ℕ) where
  -- The state counts the references of `own`, and no policy has been freed since `st`.
  abbrev pub IsBalanced : NatState maps → NatState maps → Type 0
  IsBalanced st st' = IsCounted maps st' own × (st'.freed ≡ st.freed)

  plus_le : (own : ℕ → ℕ) (p r : ℕ) → own r ≤ plus_ref own p r
  plus_le own p r = ground arith

  -- A gateway that claims the new entry leaves the references.
  claimed :
      (st st' : NatState maps) (p nt : ℕ) (alg : Option ℕ)
      → IsMade maps lpms st st' own p nt
      → IsMade maps lpms st
          (record st' { entries = update st'.entries nt (record (st'.entries nt) { alg = alg }) })
          own
          p
          nt
  claimed st st' p nt alg m =
      let new : Entry = record (st'.entries nt) { alg = alg } in
      let same : (e : ℕ) → (update st'.entries nt new e).policy ≡ (st'.entries e).policy = λ e.
        elim (Bool-cases (nt == e)) [
          | inl t ↦
              let q = ==→eq nt e t in
              ap (λ x. x.policy) (update_same st'.entries nt e new q)
              ∙ ap (λ x. (st'.entries x).policy) q
          | inr t ↦ ap (λ x. x.policy) (update_other st'.entries nt e new (==→ne nt e t))
        ] in
      record {
        counted = record {
          counted = m.counted.counted;
          listed = λ r e i. ((m.counted.listed r e i).0, same e ∙ (m.counted.listed r e i).1);
        };
        small = m.small;
        listed = m.listed;
        back = same nt ∙ m.back;
        freed = m.freed;
      }

  associate-IsBalanced :
      (w : World maps conns lpms) (p c : ℕ)
      → IsCounted maps w.nat (plus_ref own p)
      → IsSmall maps w.nat (plus_ref own p)
      → 0 < own p
      → IsBalanced w.nat (associate maps conns lpms s w p c).1.nat
  unfolding associate
  associate-IsBalanced w p c counted small held =
      let made = nat_create maps lpms s.supply s.tables s.tableset w.nat w.headers.npc p c in
      let outcome =
        create_counted maps lpms s.supply s.tables s.tableset w.nat w.headers.npc own p c counted
          small in
      elim (Option-cases made.0) [
        | inl nothing ↦
            let kept = subst (λ o. Outcome maps lpms w.nat own p (o, made.1)) nothing outcome in
            let released = release-IsCounted maps made.1 own p kept.0 kept.1 in
            rw (nothing, associate) (released.0, released.1 held ∙ kept.2)
        | inr (nt, some_entry) ↦
            let m =
              claimed w.nat made.1 p nt s.alg_match
                (subst (λ o. Outcome maps lpms w.nat own p (o, made.1)) some_entry outcome) in
            let matched : NatState maps = record (made.1) {
              entries = update made.1.entries nt (record (made.1.entries nt) { alg = s.alg_match });
            } in
            let entry = matched.entries nt in
            let linked =
              conn_setnat conns w.db c nt entry.taddr entry.tport
                (type_which (matched.policies p).type) in
            let ended =
              destroy-IsCounted maps lpms s.supply.bitmap matched own p nt m.counted m.small m.back
                m.listed in
            elim (Option-cases linked.0) [
              | inl fine ↦ rw (some_entry, fine, associate) (m.counted, m.freed)
              | inr (error, failed) ↦
                  rw (some_entry, failed, associate) (ended.0, ended.1 held ∙ m.freed)
            ]
      ]

  finish-IsBalanced :
      (st : NatState maps) (r : Option NatErrno × World maps conns lpms) (c : ℕ)
      → IsBalanced st r.1.nat
      → IsBalanced st (finish_conn maps conns lpms r c).1.nat
  finish-IsBalanced st (none, w) c b = b
  finish-IsBalanced st (some error, w) c b = b

  apply-IsBalanced :
      (w : World maps conns lpms) (con : Option ℕ) (p di : ℕ)
      → IsCounted maps w.nat (plus_ref own p)
      → IsSmall maps w.nat (plus_ref own p)
      → 0 < own p
      → IsBalanced w.nat (apply_policy maps conns lpms s w con p di).1.nat
  unfolding apply_policy
  apply-IsBalanced w con p di counted small held =
      let fits : IsSmall maps w.nat own = λ r. omega (arith, small r, plus_le own p r) in
      let released = release-IsCounted maps w.nat own p counted fits in
      let made =
        conn_establish conns s.params s.tracking s.conn_memory w.db w.headers.npc di true s.now in
      elim (Bool-cases (has_flag (w.nat.policies p).flags nat_static)) [
        | inl static ↦ rw (static, apply_policy) (released.0, released.1 held)
        | inr dynamic ↦ elim (Option-cases con) [
          | inr (c, known) ↦
              rw (dynamic, known, apply_policy) (associate-IsBalanced w p c counted small held)
          | inl unknown ↦ elim (Option-cases made.0) [
            | inl failed ↦ rw (dynamic, unknown, failed, apply_policy) (released.0, released.1 held)
            | inr (c, fresh) ↦
                rw (dynamic, unknown, fresh, apply_policy)
                  (finish-IsBalanced w.nat
                    (associate maps conns lpms s (record w { db = made.1 }) p c) c
                    (associate-IsBalanced (record w { db = made.1 }) p c counted small held))
          ]
        ]
      ]

  held-IsSmall :
      (st : NatState maps) (p : ℕ)
      → ((r : ℕ) → own r + length (st.policies r).nat_list + 2 < u32_mod)
      → IsSmall maps (policy_hold maps st p) (plus_ref own p)
  held-IsSmall st p small r =
      let new : Policy = record (st.policies p) { refcnt = add32 (st.policies p).refcnt 1 } in
      elim (Bool-cases (p == r)) [
        | inl t ↦
            let q = ==→eq p r t in
            let len = ap (λ x. length x.nat_list) (update_same st.policies p r new q) in
            let old = ap (λ x. length (st.policies x).nat_list) q in
            omega (arith, small r, len, old, plus_ref_same own p r q)
        | inr t ↦
            let ne = ==→ne p r t in
            let len = ap (λ x. length x.nat_list) (update_other st.policies p r new ne) in
            omega (arith, small r, len, plus_ref_other own p r ne)
      ]

  inspect_some :
      (st : NatState maps) (npc : Cache) (di p : ℕ)
      → matched_policy maps conns lpms s npc di ≡ some p
      → nat_inspect maps conns lpms s st npc di ≡ (some p, policy_hold maps st p)
  unfolding nat_inspect
  inspect_some st npc di p matched = rw (matched, nat_inspect) refl

  inspect_none :
      (st : NatState maps) (npc : Cache) (di : ℕ)
      → matched_policy maps conns lpms s npc di ≡ none
      → nat_inspect maps conns lpms s st npc di ≡ (none, st)
  unfolding nat_inspect
  inspect_none st npc di unmatched = rw (unmatched, nat_inspect) refl

  -- When each policy counts the references of its holders and one for each of its entries, below the
  -- range of the counter, and the policy of the rule that matches is held, then after `npf_do_nat` each
  -- policy counts the same holders and its entries, and none is freed, on every path: no translation,
  -- translation by the entry of the connection, static translation, a new entry, and each error.
  pub do_nat-IsBalanced :
      (w : World maps conns lpms) (con : Option ℕ) (di : ℕ)
      → IsCounted maps w.nat own
      → ((r : ℕ) → own r + length (w.nat.policies r).nat_list + 2 < u32_mod)
      → ((p : ℕ) → matched_policy maps conns lpms s w.headers.npc di ≡ some p → 0 < own p)
      → IsBalanced w.nat (do_nat maps conns lpms s w con di).1.nat
  unfolding do_nat
  do_nat-IsBalanced w con di counted small held =
      elim (Bool-cases
        (not (iscached w.headers.npc npc_ip46) || not (iscached w.headers.npc npc_layer4))) [
          | inl bare ↦ rw (bare, do_nat) (counted, refl)
          | inr cached ↦ elim (Option-cases (known_entry maps conns lpms w con di)) [
            | inr ((nt, flow), known) ↦ rw (cached, known, do_nat) (counted, refl)
            | inl unknown ↦
                elim (Option-cases (matched_policy maps conns lpms s w.headers.npc di)) [
                  | inl unmatched ↦
                      rw (cached, unknown, inspect_none w.nat w.headers.npc di unmatched, do_nat)
                        (counted, refl)
                  | inr (p, matched) ↦
                      let st = policy_hold maps w.nat p in
                      let with_ref =
                        hold-IsCounted maps w.nat own p counted (λ r. omega (arith, small r)) in
                      rw (cached, unknown, inspect_some w.nat w.headers.npc di p matched, do_nat)
                        (rw (inspect_some w.nat w.headers.npc di p matched) (
                          apply-IsBalanced (record w { nat = st }) con p di with_ref
                            (held-IsSmall w.nat p small) (held p matched)))
                ]
          ]
        ]
