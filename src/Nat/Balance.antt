-- ===== src/Nat/Balance.antt =====
-- The references through the creation and the end of an entry and through `npf_do_nat`,
-- src/kern/npf_nat.c.
use npf.Prelude.{
  ℕ, ◌+◌, ◌≤◌, ◌<◌, ◌≡◌, ◌≢◌, inl, inr, refl, sym, ap, ◌∙◌, subst, arith, Bool, not, ◌&&◌,
  Bool-cases, Option-cases, List, [], ◌∷◌, Option, none, some, ◌==◌, ==→eq, ==→ne, ==-refl,
  if◌then◌else◌, update, update_same, update_other, without, In, length, length-without,
}
use npf.Packet.{Cache, has_flag}
use npf.Thmap.{Thmap}
use npf.Lpm.{Lpm}
use npf.Table.Set.{Tableset, Tables}
use npf.Portmap.Ports.{Portmap, portmap_put}
use npf.Nat.{Policy, Entry, NatState, nat_usetable, nat_portmap, algo_netmap, algo_rr}
use npf.Nat.Policies.{put_policy, words_of}
use npf.Nat.Entries.{
  Supply, nat_create, nat_destroy, select_taddr, nat_getaddr, new_entry, select_tport,
}
use npf.Nat.Counted.{
  plus_ref, plus_ref_same, plus_ref_other, counted_update, listed_update, IsCounted, IsSmall,
  release-IsCounted,
}

pub without_self : (e : ℕ) (xs : List ℕ) → without e (e ∷ xs) ≡ xs
unfolding without
without_self e xs = rw (==-refl e) refl

In-shorter : (x e : ℕ) (xs : List ℕ) → In x (without e xs) → In x xs
unfolding without
In-shorter x e [] i = absurd i
In-shorter x e (y ∷ xs) i = elim (Bool-cases (e == y)) [
  | inl q ↦ inr (rw q at i)
  | inr q ↦ elim (subst (λ b. In x (if b then xs else y ∷ without e xs)) q i) [
    | inl p ↦ inl p
    | inr j ↦ inr (In-shorter x e xs j)
  ]
]

module _ (maps : Thmap (List ℕ) ℕ) (lpms : Lpm) where
  plus_le : (own : ℕ → ℕ) (p r : ℕ) → own r ≤ plus_ref own p r
  plus_le own p r = ground arith

  -- The selection of an address leaves the references and the entries of the policy.
  select_keeps :
      (mem : Tables maps lpms) (ts : Tableset) (npc : Cache) (np : Policy)
      → ((select_taddr maps lpms mem ts npc np).1.refcnt ≡ np.refcnt)
        × ((select_taddr maps lpms mem ts npc np).1.nat_list ≡ np.nat_list)
  unfolding select_taddr nat_getaddr
  select_keeps mem ts npc np = elim (Bool-cases (has_flag np.flags nat_usetable)) [
    | inl table ↦ elim (Bool-cases (np.algo == algo_rr)) [
      | inl rr ↦ rw table (rw rr (refl, refl))
      | inr other ↦ rw table (rw other (refl, refl))
    ]
    | inr address ↦ elim (Bool-cases (np.algo == algo_netmap)) [
      | inl netmap ↦ rw address (rw netmap (refl, refl))
      | inr static ↦ rw address (rw static (refl, refl))
    ]
  ]

  -- What the creation of an entry leaves: the entry consumes the reference of its caller.
  pub record IsMade (st st' : NatState maps) (own : ℕ → ℕ) (p nt : ℕ) : Type 0 where
    pub counted : IsCounted maps st' own
    pub small : IsSmall maps st' own
    pub listed : In nt (st'.policies p).nat_list
    pub back : (st'.entries nt).policy ≡ p
    pub freed : st'.freed ≡ st.freed

  -- The state with a new entry of a policy.
  abbrev with_entry : NatState maps → ℕ → Policy → Entry → Portmap maps → NatState maps
  with_entry st p np entry pm =
      record (put_policy maps st p (record np { nat_list = st.next ∷ np.nat_list })) {
        entries = update st.entries st.next entry;
        next = st.next + 1;
        portmap = pm;
      }

  entry-IsMade :
      (st : NatState maps) (own : ℕ → ℕ) (p : ℕ) (np : Policy) (entry : Entry) (pm : Portmap maps)
      → IsCounted maps st (plus_ref own p)
      → IsSmall maps st (plus_ref own p)
      → np.refcnt ≡ (st.policies p).refcnt
      → np.nat_list ≡ (st.policies p).nat_list
      → entry.policy ≡ p
      → IsMade st (with_entry st p np entry pm) own p st.next
  entry-IsMade st own p np entry pm c small refs list owner =
      let new : Policy = record np { nat_list = st.next ∷ np.nat_list } in
      let own_p = plus_ref_same own p p refl in
      let same_length = ap length list in
      let here = update_same st.policies p p new refl in
      let made = update_same st.entries st.next st.next entry refl in
      record {
        counted = record {
          counted =
              counted_update st.policies (plus_ref own p) own p new c.counted
                (omega (arith, refs, c.counted p, own_p, same_length))
                (λ r ne. sym (plus_ref_other own p r ne));
          listed =
              listed_update st.policies st.entries (update st.entries st.next entry) st.next
                (st.next + 1) p new c.listed
                (λ e i. elim i [
                  | inl q ↦ (
                    omega (arith, q),
                    ap (λ x. x.policy) (update_same st.entries st.next e entry (sym q)) ∙ owner,
                  )
                  | inr j ↦
                      let old = c.listed p e (subst (λ l. In e l) list j) in
                      let ne : st.next ≢ e = λ q. absurd (omega (arith, q, old.0)) in
                      (
                        omega (arith, old.0),
                        ap (λ x. x.policy) (update_other st.entries st.next e entry ne) ∙ old.1,
                      )
                ])
                (λ e below.
                  ap (λ x. x.policy)
                    (update_other st.entries st.next e entry
                      (λ q. absurd (omega (arith, q, below)))))
                (omega arith);
        };
        small = λ r. elim (Bool-cases (p == r)) [
          | inl t ↦
              let q = ==→eq p r t in
              let len = ap (λ x. length x.nat_list) (update_same st.policies p r new q) in
              let old_len = ap (λ x. length (st.policies x).nat_list) q in
              omega (arith, small r, plus_ref_same own p r q, len, old_len, same_length)
          | inr t ↦
              let ne = ==→ne p r t in
              let len = ap (λ x. length x.nat_list) (update_other st.policies p r new ne) in
              omega (arith, small r, plus_ref_other own p r ne, len)
        ];
        listed = subst (λ x. In st.next x.nat_list) (sym here) (inl refl);
        back = ap (λ x. x.policy) made ∙ owner;
        freed = refl;
      }

  -- The outcome of a creation: an entry consumes the reference, and without one the state stays counted.
  abbrev pub Outcome : NatState maps → (ℕ → ℕ) → ℕ → Option ℕ × NatState maps → Type 0
  Outcome st own p (none, st') =
      IsCounted maps st' (plus_ref own p) × IsSmall maps st' own × (st'.freed ≡ st.freed)
  Outcome st own p (some nt, st') = IsMade st st' own p nt

  policy_kept :
      (st : NatState maps) (own : ℕ → ℕ) (p : ℕ) (np : Policy)
      → IsCounted maps st (plus_ref own p)
      → IsSmall maps st (plus_ref own p)
      → np.refcnt ≡ (st.policies p).refcnt
      → np.nat_list ≡ (st.policies p).nat_list
      → Outcome st own p (none, put_policy maps st p np)
  policy_kept st own p np c small refs list = (
    record {
      counted =
          counted_update st.policies (plus_ref own p) (plus_ref own p) p np c.counted
            (refs ∙ (c.counted p ∙ ap (λ x. plus_ref own p p + length x) (sym list)))
            (λ r ne. refl);
      listed =
          listed_update st.policies st.entries st.entries st.next st.next p np c.listed
            (λ e i. c.listed p e (subst (λ l. In e l) list i)) (λ e b. refl) (omega arith);
    },
    λ r. elim (Bool-cases (p == r)) [
      | inl t ↦
          let q = ==→eq p r t in
          let len = ap (λ x. length x.nat_list) (update_same st.policies p r np q) in
          let old_len = ap (λ x. length (st.policies x).nat_list) q in
          omega (arith, small r, plus_ref_same own p r q, len, old_len, ap length list)
      | inr t ↦
          let ne = ==→ne p r t in
          let len = ap (λ x. length x.nat_list) (update_other st.policies p r np ne) in
          omega (arith, small r, plus_ref_other own p r ne, len)
    ],
    refl,
  )

  pub create_counted :
      (supply : Supply) (mem : Tables maps lpms) (ts : Tableset) (st : NatState maps) (npc : Cache)
      (own : ℕ → ℕ) (p c : ℕ)
      → IsCounted maps st (plus_ref own p)
      → IsSmall maps st (plus_ref own p)
      → Outcome st own p (nat_create maps lpms supply mem ts st npc p c)
  unfolding nat_create new_entry
  create_counted supply mem ts st npc own p c counted small =
      let np = (select_taddr maps lpms mem ts npc (st.policies p)).1 in
      let keeps = select_keeps mem ts npc (st.policies p) in
      elim (Bool-cases supply.entry) [
        | inr full ↦
            rw (full, nat_create) (counted, (λ r. omega (arith, small r, plus_le own p r)), refl)
        | inl room ↦ elim (Option-cases (select_taddr maps lpms mem ts npc (st.policies p)).0) [
          | inl no_addr ↦
              rw (room, no_addr, nat_create) (policy_kept st own p np counted small keeps.0 keeps.1)
          | inr (taddr, addr) ↦
              let tport = select_tport maps lpms supply st npc np taddr in
              rw (room, addr, nat_create)
                (entry-IsMade st own p np (new_entry npc p np c taddr tport.0) tport.1 counted small
                  keeps.0 keeps.1 refl)
        ]
      ]

  -- The end of an entry gives up its reference.
  pub destroy-IsCounted :
      (bitmap : Bool) (st : NatState maps) (own : ℕ → ℕ) (p nt : ℕ)
      → IsCounted maps st own
      → IsSmall maps st own
      → (st.entries nt).policy ≡ p
      → In nt (st.policies p).nat_list
      → IsCounted maps (nat_destroy maps lpms bitmap st nt) own
        × (0 < own p → (nat_destroy maps lpms bitmap st nt).freed ≡ st.freed)
  unfolding nat_destroy
  destroy-IsCounted bitmap st own p nt c small back listed =
      let entry = st.entries nt in
      let np = st.policies entry.policy in
      let returned : Portmap maps =
        if has_flag np.flags nat_portmap && not (entry.tport == 0)
        then portmap_put maps bitmap st.portmap (words_of entry.alen entry.taddr) entry.tport
        else st.portmap in
      let here = subst (λ x. In nt (st.policies x).nat_list) (sym back) listed in
      let new : Policy = record np { nat_list = without nt np.nat_list } in
      let gone : Entry = record entry { alg = none } in
      let less : NatState maps = record (put_policy maps st entry.policy new) {
        entries = update st.entries nt gone;
        portmap = returned;
      } in
      let same : (e : ℕ) → ((update st.entries nt gone) e).policy ≡ (st.entries e).policy = λ e.
        elim (Bool-cases (nt == e)) [
          | inl t ↦
              let q = ==→eq nt e t in
              ap (λ x. x.policy) (update_same st.entries nt e gone q)
              ∙ ap (λ x. (st.entries x).policy) q
          | inr t ↦ ap (λ x. x.policy) (update_other st.entries nt e gone (==→ne nt e t))
        ] in
      let own_p = plus_ref_same own entry.policy entry.policy refl in
      let kept : IsCounted maps less (plus_ref own entry.policy) = record {
        counted =
            counted_update st.policies own (plus_ref own entry.policy) entry.policy new c.counted
              (omega (arith, c.counted entry.policy, own_p, length-without nt np.nat_list here))
              (λ r ne. plus_ref_other own entry.policy r ne);
        listed =
            listed_update st.policies st.entries (update st.entries nt gone) st.next st.next
              entry.policy new c.listed
              (λ e i.
                let old = c.listed entry.policy e (In-shorter e nt np.nat_list i) in
                (old.0, same e ∙ old.1))
              (λ e b. same e) (omega arith);
      } in
      let fits : IsSmall maps less own = λ r. elim (Bool-cases (entry.policy == r)) [
        | inl t ↦
            let q = ==→eq entry.policy r t in
            let len = ap (λ x. length x.nat_list) (update_same st.policies entry.policy r new q) in
            let old_len = ap (λ x. length (st.policies x).nat_list) q in
            omega (arith, small r, len, old_len, length-without nt np.nat_list here)
        | inr t ↦
            let len =
              ap (λ x. length x.nat_list)
                (update_other st.policies entry.policy r new (==→ne entry.policy r t)) in
            omega (arith, small r, len)
      ] in
      let released = release-IsCounted maps less own entry.policy kept fits in
      (released.0, λ held. released.1 (subst (λ x. 0 < own x) (sym back) held))
