-- ===== src/Nat/Drain.antt =====
-- The destruction of a policy of src/kern/npf_nat.c, and its end with the last of its entries.
use npf.Prelude.{
  ℕ, ◌+◌, ◌<◌, ◌≡◌, ◌⊎◌, inl, inr, refl, sym, ap, ◌∙◌, subst, arith, Bool, true, false, not, ◌&&◌,
  Bool-cases, List, [], ◌∷◌, none, some, ◌==◌, ==→eq, ==→ne, if◌then◌else◌, ltb, lt→ltb, update,
  update_same, update_other, sub32, u32_mod, without, In, length,
}
use npf.Packet.{Flow, has_flag}
use npf.Thmap.{Thmap}
use npf.Lpm.{Lpm}
use npf.Portmap.Ports.{portmap_put}
use npf.Conn.Db.{Db}
use npf.Conn.Ops.{conn_expire}
use npf.Nat.{Policy, Entry, NatState, nat_portmap}
use npf.Nat.Policies.{words_of, put_policy, policy_release}
use npf.Nat.Entries.{nat_destroy}
use npf.Nat.Balance.{without_self}

module _ (maps : Thmap (List ℕ) ℕ) (conns : Thmap (List ℕ) (ℕ × Flow)) where
  -- The loop of `npf_natpolicy_destroy` over the entries.
  unfoldable pub expire_entries : (ℕ → Entry) → Db conns → List ℕ → Db conns
  expire_entries entries db [] = db
  expire_entries entries db (nt ∷ rest) =
      expire_entries entries (conn_expire conns db (entries nt).conn) rest

  -- `npf_natpolicy_destroy`
  unfoldable pub natpolicy_destroy : NatState maps → Db conns → ℕ → NatState maps × Db conns
  natpolicy_destroy st db p =
      let np = st.policies p in
      (
        policy_release maps st p,
        if ltb 1 np.refcnt then expire_entries st.entries db np.nat_list else db,
      )

-- `npf_nat_freealg`: the entries of a policy that a gateway leaves.
unfoldable pub nat_freealg : (ℕ → Entry) → List ℕ → ℕ → ℕ → Entry
nat_freealg entries [] alg = entries
nat_freealg entries (nt ∷ rest) alg =
    let entry = entries nt in
    let left : ℕ → Entry = update entries nt (record entry { alg = none }) in
    let same : Bool = elim entry.alg [ none ↦ false | some a ↦ a == alg ] in
    nat_freealg (if same then left else entries) rest alg

length-In : (e : ℕ) (xs : List ℕ) → In e xs → 0 < length xs
length-In e [] i = absurd i
length-In e (x ∷ xs) i = omega arith

same_owner :
    (entries : ℕ → Entry) (nt e : ℕ) (new : Entry)
    → new.policy ≡ (entries nt).policy
    → (update entries nt new e).policy ≡ (entries e).policy
same_owner entries nt e new same = elim (Bool-cases (nt == e)) [
  | inl t ↦
      let q = ==→eq nt e t in
      ap (λ x. x.policy) (update_same entries nt e new q) ∙ (same ∙ ap (λ x. (entries x).policy) q)
  | inr t ↦ ap (λ x. x.policy) (update_other entries nt e new (==→ne nt e t))
]

module _ (maps : Thmap (List ℕ) ℕ) (lpms : Lpm) where
  -- What a release does to the policy and to the list of the freed ones.
  release_effect :
      (st : NatState maps) (p : ℕ)
      → ((policy_release maps st p).policies
          ≡ update st.policies p
              (record (st.policies p) { refcnt = sub32 (st.policies p).refcnt 1 }))
        × ((policy_release maps st p).entries ≡ st.entries)
        × ((policy_release maps st p).freed
            ≡ (if sub32 (st.policies p).refcnt 1 == 0 then p ∷ st.freed else st.freed))
  unfolding policy_release
  release_effect st p = elim (Bool-cases (sub32 (st.policies p).refcnt 1 == 0)) [
    | inl last ↦ rw last (refl, refl, refl)
    | inr more ↦ rw more (refl, refl, refl)
  ]

  -- What is left to free after a policy has dropped to `left` references.
  abbrev freed_at : ℕ → ℕ → List ℕ → List ℕ
  freed_at left p freed = if left == 0 then p ∷ freed else freed

  pub record IsEnded (st st' : NatState maps) (p nt : ℕ) : Type 0 where
    pub list : (st'.policies p).nat_list ≡ without nt (st.policies p).nat_list
    pub refcnt : (st'.policies p).refcnt ≡ sub32 (st.policies p).refcnt 1
    pub owners : (e : ℕ) → (st'.entries e).policy ≡ (st.entries e).policy
    pub freed : st'.freed ≡ freed_at (sub32 (st.policies p).refcnt 1) p st.freed

  destroy_effect :
      (bitmap : Bool) (st : NatState maps) (p nt : ℕ)
      → (st.entries nt).policy ≡ p
      → IsEnded st (nat_destroy maps lpms bitmap st nt) p nt
  unfolding nat_destroy
  destroy_effect bitmap st p nt owner =
      let entry = st.entries nt in
      let own = entry.policy in
      let np = st.policies own in
      let new : Policy = record np { nat_list = without nt np.nat_list } in
      let gone : Entry = record entry { alg = none } in
      let less : NatState maps = record (put_policy maps st own new) {
        entries = update st.entries nt gone;
        portmap =
            if has_flag np.flags nat_portmap && not (entry.tport == 0)
            then portmap_put maps bitmap st.portmap (words_of entry.alen entry.taddr) entry.tport
            else st.portmap;
      } in
      let done = release_effect less own in
      let there = update_same st.policies own own new refl in
      let last : Policy = record (less.policies own) {
        refcnt = sub32 (less.policies own).refcnt 1;
      } in
      let at_own = ap (λ f. f own) done.0 ∙ update_same less.policies own own last refl in
      subst (λ x. IsEnded st (policy_release maps less own) x nt) owner
        (record {
          list = ap (λ x. x.nat_list) at_own ∙ ap (λ x. x.nat_list) there;
          refcnt = ap (λ x. x.refcnt) at_own ∙ ap (λ x. sub32 x.refcnt 1) there;
          owners = λ e. ap (λ f. (f e).policy) done.1 ∙ same_owner st.entries nt e gone refl;
          freed = done.2 ∙ ap (λ x. freed_at (sub32 x.refcnt 1) own st.freed) there;
        })

  -- The ends of entries, one after another.
  unfoldable pub end_entries : Bool → NatState maps → List ℕ → NatState maps
  end_entries bitmap st [] = st
  end_entries bitmap st (nt ∷ rest) = end_entries bitmap (nat_destroy maps lpms bitmap st nt) rest

  drained :
      (bitmap : Bool) (st : NatState maps) (p nt : ℕ) (rest : List ℕ)
      → (st.policies p).nat_list ≡ nt ∷ rest
      → (st.policies p).refcnt ≡ length (nt ∷ rest)
      → length (nt ∷ rest) < u32_mod
      → ((e : ℕ) → In e (nt ∷ rest) → (st.entries e).policy ≡ p)
      → (end_entries bitmap st (nt ∷ rest)).freed ≡ p ∷ st.freed
  unfolding end_entries
  drained bitmap st p nt [] list refs small owners =
      let ended = destroy_effect bitmap st p nt (owners nt (inl refl)) in
      ended.freed ∙ ap (λ n. freed_at (sub32 n 1) p st.freed) refs
  drained bitmap st p nt (e ∷ rest) list refs small owners =
      let st' = nat_destroy maps lpms bitmap st nt in
      let ended = destroy_effect bitmap st p nt (owners nt (inl refl)) in
      let left : sub32 (st.policies p).refcnt 1 ≡ length (e ∷ rest) = omega (arith, refs, small) in
      let some_left : (sub32 (st.policies p).refcnt 1 == 0) ≡ false =
        (let more : (length (e ∷ rest) == 0) ≡ false = ground arith in
          ap (λ n. n == 0) left ∙ more) in
      let kept : st'.freed ≡ st.freed =
        ended.freed ∙ ap (λ b. if b then p ∷ st.freed else st.freed) some_left in
      drained bitmap st' p e rest (ended.list ∙ (ap (without nt) list ∙ without_self nt (e ∷ rest)))
        (ended.refcnt ∙ left) (omega (arith, small)) (λ x i. ended.owners x ∙ owners x (inr i))
      ∙ ap (λ l. p ∷ l) kept

  released_ended :
      (bitmap : Bool) (st : NatState maps) (p : ℕ) (list : List ℕ)
      → (st.policies p).nat_list ≡ list
      → (st.policies p).refcnt ≡ 1 + length (st.policies p).nat_list
      → 1 + length (st.policies p).nat_list < u32_mod
      → ((e : ℕ) → In e (st.policies p).nat_list → (st.entries e).policy ≡ p)
      → (end_entries bitmap (policy_release maps st p) list).freed ≡ p ∷ st.freed
  unfolding end_entries
  released_ended bitmap st p [] same refs small owners =
      (release_effect st p).2
      ∙ ap (λ n. freed_at (sub32 n 1) p st.freed) (refs ∙ ap (λ l. 1 + length l) same)
  released_ended bitmap st p (nt ∷ rest) same refs small owners =
      let done = release_effect st p in
      let last : Policy = record (st.policies p) { refcnt = sub32 (st.policies p).refcnt 1 } in
      let at_p = ap (λ f. f p) done.0 ∙ update_same st.policies p p last refl in
      let count = ap length same in
      let left : sub32 (st.policies p).refcnt 1 ≡ length (nt ∷ rest) =
        omega (arith, refs, small, count) in
      let more : (length (nt ∷ rest) == 0) ≡ false = ground arith in
      let kept =
        done.2 ∙ ap (λ b. if b then p ∷ st.freed else st.freed) (ap (λ n. n == 0) left ∙ more) in
      drained bitmap (policy_release maps st p) p nt rest (ap (λ x. x.nat_list) at_p ∙ same)
        (ap (λ x. x.refcnt) at_p ∙ left) (omega (arith, small, count))
        (λ e i. ap (λ f. (f e).policy) done.1 ∙ owners e (subst (λ l. In e l) (sym same) i))
      ∙ ap (λ l. p ∷ l) kept

module _ (conns : Thmap (List ℕ) (ℕ × Flow)) where
  expired_one :
      (db : Db conns) (c d : ℕ)
      → (c ≡ d) ⊎ ((db.conns d).flags.expire ≡ true)
      → ((conn_expire conns db c).conns d).flags.expire ≡ true
  unfolding conn_expire
  expired_one db c d h = elim (Bool-cases (c == d)) [
    | inl t ↦ rw t refl
    | inr t ↦ elim h [ inl e ↦ absurd (==→ne c d t e) | inr old ↦ rw t old ]
  ]

module _ (maps : Thmap (List ℕ) ℕ) (conns : Thmap (List ℕ) (ℕ × Flow)) (lpms : Lpm) where
  expire_all :
      (entries : ℕ → Entry) (db : Db conns) (list : List ℕ) (c : ℕ)
      → ((db.conns c).flags.expire ≡ true) ⊎ ((e : ℕ) × In e list × ((entries e).conn ≡ c))
      → ((expire_entries maps conns entries db list).conns c).flags.expire ≡ true
  unfolding expire_entries
  expire_all entries db [] c (inl old) = old
  expire_all entries db [] c (inr (e, i, own)) = absurd i
  expire_all entries db (nt ∷ rest) c (inl old) =
      expire_all entries (conn_expire conns db (entries nt).conn) rest c
        (inl (expired_one conns db (entries nt).conn c (inr old)))
  expire_all entries db (nt ∷ rest) c (inr (e, inl q, own)) =
      expire_all entries (conn_expire conns db (entries nt).conn) rest c (
        inl (
          expired_one conns db (entries nt).conn c
            (inl (ap (λ x. (entries x).conn) (sym q) ∙ own))))
  expire_all entries db (nt ∷ rest) c (inr (e, inr i, own)) =
      expire_all entries (conn_expire conns db (entries nt).conn) rest c (inr (e, i, own))

  -- A policy that counts one reference of its rule and one for each of its entries, within the range of
  -- the counter, and to which these entries refer back, is freed exactly once: its destruction expires the connection of every entry, and after the ends
  -- of the entries, one after another, it is freed, and nothing else is.
  pub natpolicy_destroy-freed :
      (bitmap : Bool) (st : NatState maps) (db : Db conns) (p : ℕ)
      → (st.policies p).refcnt ≡ 1 + length (st.policies p).nat_list
      → 1 + length (st.policies p).nat_list < u32_mod
      → ((e : ℕ) → In e (st.policies p).nat_list → (st.entries e).policy ≡ p)
      → ((end_entries maps lpms bitmap
            (natpolicy_destroy maps conns st db p).0
            (st.policies p).nat_list).freed
          ≡ p ∷ st.freed)
        × ((e : ℕ)
            → In e (st.policies p).nat_list
            → ((natpolicy_destroy maps conns st db p).1.conns (st.entries e).conn).flags.expire
              ≡ true)
  unfolding natpolicy_destroy
  natpolicy_destroy-freed bitmap st db p refs small owners = (
    released_ended maps lpms bitmap st p (st.policies p).nat_list refl refs small owners,
    λ e i.
        let some_entry : ltb 1 (st.policies p).refcnt ≡ true =
          lt→ltb 1 (st.policies p).refcnt
            (omega (arith, refs, length-In e (st.policies p).nat_list i)) in
        rw some_entry (
          expire_all st.entries db (st.policies p).nat_list (st.entries e).conn (inr (e, i, refl))),
  )
