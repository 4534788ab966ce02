-- ===== src/Nat/Counted.antt =====
-- The references on the policies of src/kern/npf_nat.c.
use npf.Prelude.{
  ℕ, ◌+◌, ◌≤◌, ◌<◌, ◌≡◌, ◌≢◌, inl, inr, refl, sym, ap, ◌∙◌, subst, arith, Bool-cases, List, ◌==◌,
  ==→eq, ==→ne, if◌then◌else◌, update, update_same, update_other, sub32, u32_mod, In, length,
}
use npf.Thmap.{Thmap}
use npf.Nat.{Policy, Entry, NatState}
use npf.Nat.Policies.{put_policy, policy_hold, policy_release}

-- A reference more on one policy.
abbrev pub plus_ref : (ℕ → ℕ) → ℕ → ℕ → ℕ
plus_ref own p r = if p == r then own r + 1 else own r

pub plus_ref_same : (own : ℕ → ℕ) (p r : ℕ) → p ≡ r → plus_ref own p r ≡ own r + 1
plus_ref_same own p r e = ground (arith, e)

pub plus_ref_other : (own : ℕ → ℕ) (p r : ℕ) → p ≢ r → plus_ref own p r ≡ own r
plus_ref_other own p r ne = ground (arith, ne)

-- Each policy counts the references that `own` tells and one for each of its entries.
abbrev pub AreCounted : (ℕ → Policy) → (ℕ → ℕ) → Type 0
AreCounted policies own = (r : ℕ) → (policies r).refcnt ≡ own r + length (policies r).nat_list

-- The entries of a policy refer back to it.
abbrev pub AreListed : (ℕ → Policy) → (ℕ → Entry) → ℕ → Type 0
AreListed policies entries next =
    (r e : ℕ) → In e (policies r).nat_list → (e < next) × ((entries e).policy ≡ r)

pub counted_update :
    (policies : ℕ → Policy) (own own' : ℕ → ℕ) (p : ℕ) (np : Policy)
    → AreCounted policies own
    → np.refcnt ≡ own' p + length np.nat_list
    → ((r : ℕ) → p ≢ r → own' r ≡ own r)
    → AreCounted (update policies p np) own'
counted_update policies own own' p np c here same r = elim (Bool-cases (p == r)) [
  | inl e ↦
      let q = ==→eq p r e in
      let new = update_same policies p r np q in
      ap (λ x. x.refcnt) new
      ∙ (here
          ∙ (ap (λ x. own' x + length np.nat_list) q
              ∙ ap (λ x. own' r + length x.nat_list) (sym new)))
  | inr e ↦
      let ne = ==→ne p r e in
      let old = update_other policies p r np ne in
      ap (λ x. x.refcnt) old
      ∙ (c r
          ∙ (ap (λ x. x + length (policies r).nat_list) (sym (same r ne))
              ∙ ap (λ x. own' r + length x.nat_list) (sym old)))
]

pub listed_update :
    (policies : ℕ → Policy) (entries entries' : ℕ → Entry) (next next' p : ℕ) (np : Policy)
    → AreListed policies entries next
    → ((e : ℕ) → In e np.nat_list → (e < next') × ((entries' e).policy ≡ p))
    → ((e : ℕ) → e < next → (entries' e).policy ≡ (entries e).policy)
    → next ≤ next'
    → AreListed (update policies p np) entries' next'
listed_update policies entries entries' next next' p np l here same more r e i =
    elim (Bool-cases (p == r)) [
      | inl t ↦
          let q = ==→eq p r t in
          let there = here e (subst (λ x. In e x.nat_list) (update_same policies p r np q) i) in
          (there.0, there.1 ∙ q)
      | inr t ↦
          let ne = ==→ne p r t in
          let there = l r e (subst (λ x. In e x.nat_list) (update_other policies p r np ne) i) in
          (omega (arith, there.0, more), same e there.0 ∙ there.1)
    ]

module _ (maps : Thmap (List ℕ) ℕ) where
  pub record IsCounted (st : NatState maps) (own : ℕ → ℕ) : Type 0 where
    pub counted : AreCounted st.policies own
    pub listed : AreListed st.policies st.entries st.next

  -- The references fit the counter.
  abbrev pub IsSmall : NatState maps → (ℕ → ℕ) → Type 0
  IsSmall st own = (r : ℕ) → own r + length (st.policies r).nat_list + 1 < u32_mod

  pub hold-IsCounted :
      (st : NatState maps) (own : ℕ → ℕ) (p : ℕ)
      → IsCounted st own
      → IsSmall st own
      → IsCounted (policy_hold maps st p) (plus_ref own p)
  hold-IsCounted st own p c small = record {
    counted =
        counted_update st.policies own (plus_ref own p) p _ c.counted
          (omega (arith, c.counted p, small p, plus_ref_same own p p refl))
          (λ r ne. plus_ref_other own p r ne);
    listed =
        listed_update st.policies st.entries st.entries st.next st.next p _ c.listed
          (λ e i. c.listed p e i) (λ e b. refl) (omega arith);
  }

  -- A release gives up one reference, and frees the policy only with the last one.
  pub release-IsCounted :
      (st : NatState maps) (own : ℕ → ℕ) (p : ℕ)
      → IsCounted st (plus_ref own p)
      → IsSmall st own
      → IsCounted (policy_release maps st p) own
        × (0 < own p → (policy_release maps st p).freed ≡ st.freed)
  unfolding policy_release
  release-IsCounted st own p c small =
      let left = sub32 (st.policies p).refcnt 1 in
      let value : left ≡ own p + length (st.policies p).nat_list =
        omega (arith, c.counted p, small p, plus_ref_same own p p refl) in
      let kept : IsCounted (put_policy maps st p (record (st.policies p) { refcnt = left })) own =
        record {
          counted =
              counted_update st.policies (plus_ref own p) own p
                (record (st.policies p) { refcnt = left }) c.counted value
                (λ r ne. sym (plus_ref_other own p r ne));
          listed =
              listed_update st.policies st.entries st.entries st.next st.next p
                (record (st.policies p) { refcnt = left }) c.listed (λ e i. c.listed p e i)
                (λ e b. refl) (omega arith);
        } in
      elim (Bool-cases (left == 0)) [
        | inl last ↦ rw last (
          record { counted = kept.counted; listed = kept.listed },
          λ held. absurd (omega (arith, held, value, ==→eq left 0 last)),
        )
        | inr more ↦ rw more (kept, λ held. refl)
      ]
