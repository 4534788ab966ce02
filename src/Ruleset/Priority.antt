-- ===== src/Ruleset/Priority.antt =====
-- The rules that are added to dynamic groups stay in the order of their priorities, as the inspection
-- asserts.
use Prim.Native.String.{String}
use npf.Prelude.{
  without, ℕ, ◌+◌, ◌%◌, ◌≡◌, inl, inr, refl, sym, ap, ◌∙◌, arith, Bool-cases, Option-cases, List,
  [], ◌∷◌, none, ◌==◌, ==→eq, ==-refl, subst, update, In, ℤ, pos, negsuc, ltb_ℤ, ◌≤ℤ◌, u64_mod,
}
use npf.Ruleset.{Rule, Ruleset, is_dynamic_rule}
use npf.Ruleset.Config.{
  ruleset_lookup, insert_by_priority, reset_priority, put_subset, added_rule, placed, ruleset_add,
  find_id, find_key, ruleset_unlink, ruleset_remove, ruleset_remkey, ruleset_flush,
}

-- The priorities do not decrease, from `low` on.
abbrev pub IsSorted : (ℕ → Rule) → ℤ → List ℕ → Type 0
IsSorted rules low [] = Unit
IsSorted rules low (rl ∷ rest) =
    (low ≤ℤ (rules rl).priority) × IsSorted rules (rules rl).priority rest

-- Every group is sorted, and has no negative priority.
abbrev pub AreOrdered : (ℕ → Rule) → Type 0
AreOrdered rules = (rg : ℕ) → IsSorted rules (pos 0) (rules rg).subset

IsSorted-same :
    (rules rules' : ℕ → Rule) (low : ℤ) (xs : List ℕ)
    → ((q : ℕ) → In q xs → (rules' q).priority ≡ (rules q).priority)
    → IsSorted rules low xs
    → IsSorted rules' low xs
IsSorted-same rules rules' low [] same s = tt
IsSorted-same rules rules' low (x ∷ xs) same s =
    rw (same x (inl refl))
      (s.0, IsSorted-same rules rules' (rules x).priority xs (λ q i. same q (inr i)) s.1)

IsSorted-lower :
    (rules : ℕ → Rule) (low lower : ℤ) (xs : List ℕ)
    → lower ≤ℤ low
    → IsSorted rules low xs
    → IsSorted rules lower xs
IsSorted-lower rules low lower [] h s = tt
IsSorted-lower rules low lower (x ∷ xs) h s = (omega (arith, h, s.0), s.1)

IsSorted-insert :
    (rules : ℕ → Rule) (rl : ℕ) (low : ℤ) (xs : List ℕ)
    → low ≤ℤ (rules rl).priority
    → IsSorted rules low xs
    → IsSorted rules low (insert_by_priority rules rl xs)
unfolding insert_by_priority
IsSorted-insert rules rl low [] h s = (h, tt)
IsSorted-insert rules rl low (x ∷ xs) h s =
    elim (Bool-cases (ltb_ℤ (rules rl).priority (rules x).priority)) [
      | inl before ↦ rw before (h, (ground arith, s.1))
      | inr behind ↦
          rw behind (s.0, IsSorted-insert rules rl (rules x).priority xs (ground arith) s.1)
    ]

IsSorted-without :
    (rules : ℕ → Rule) (rl : ℕ) (low : ℤ) (xs : List ℕ)
    → IsSorted rules low xs
    → IsSorted rules low (without rl xs)
unfolding without
IsSorted-without rules rl low [] s = tt
IsSorted-without rules rl low (x ∷ xs) s = elim (Bool-cases (rl == x)) [
  | inl e ↦ rw e (IsSorted-lower rules (rules x).priority low xs s.0 s.1)
  | inr e ↦ rw e (s.0, IsSorted-without rules rl (rules x).priority xs s.1)
]

-- The list of one group is replaced.
AreOrdered-put_subset :
    (rules : ℕ → Rule) (rg : ℕ) (xs : List ℕ)
    → AreOrdered rules
    → IsSorted rules (pos 0) xs
    → AreOrdered (put_subset rules rg xs)
AreOrdered-put_subset rules rg xs o s q =
    IsSorted-same rules (put_subset rules rg xs) (pos 0) ((put_subset rules rg xs) q).subset
      (λ p i. ground (arith, ==→eq rg p))
      (elim (Bool-cases (rg == q)) [ inl e ↦ rw e s | inr ne ↦ rw ne (o q) ])

AreOrdered-update :
    (rules : ℕ → Rule) (rl : ℕ) (r : Rule)
    → AreOrdered rules
    → ((q : ℕ) → ¬ (In rl (rules q).subset))
    → r.subset ≡ (rules rl).subset
    → AreOrdered (update rules rl r)
AreOrdered-update rules rl r o fresh same q = elim (Bool-cases (rl == q)) [
  | inl e ↦ rw e (
      subst (λ xs. IsSorted (update rules rl r) (pos 0) xs)
        (sym (same ∙ ap (λ x. (rules x).subset) (==→eq rl q e))) (moved (o q)))
  | inr ne ↦ rw ne (moved (o q))
]
  where
    moved :
        IsSorted rules (pos 0) (rules q).subset
        → IsSorted (update rules rl r) (pos 0) (rules q).subset
    moved = IsSorted-same rules (update rules rl r) (pos 0) (rules q).subset (λ p i.
        elim (Bool-cases (rl == p)) [
          | inl e ↦ absurd (fresh q (subst (λ x. In x (rules q).subset) (sym (==→eq rl p e)) i))
          | inr ne ↦ rw ne
        ])

IsSorted-placed :
    (rules : ℕ → Rule) (priocmd : ℤ) (rl : ℕ) (xs : List ℕ)
    → (rules rl).priority ≡ reset_priority priocmd
    → IsSorted rules (pos 0) xs
    → IsSorted rules (pos 0) (placed rules priocmd rl xs)
IsSorted-placed rules (pos n) rl xs e s = IsSorted-insert rules rl (pos 0) xs (rw e (omega arith)) s
IsSorted-placed rules (negsuc n) rl xs e s = elim (Bool-cases (n == 1)) [
  | inl first ↦ rw first (rw e (omega arith), rw e s)
  | inr last ↦ rw last (IsSorted-insert rules rl (pos 0) xs (rw e (omega arith)) s)
]

pub ruleset_add-AreOrdered :
    (rules : ℕ → Rule) (rs : Ruleset) (rname : String) (rl : ℕ)
    → AreOrdered rules
    → ((q : ℕ) → ¬ (In rl (rules q).subset))
    → AreOrdered (ruleset_add rules rs rname rl).1
unfolding ruleset_add
ruleset_add-AreOrdered rules rs rname rl o fresh =
    elim (Bool-cases (is_dynamic_rule (rules rl).attr)) [
      | inr static ↦ rw static o
      | inl dynamic ↦ elim (Option-cases (ruleset_lookup rules rs rname)) [
        | inl no_group ↦ rw dynamic (rw no_group o)
        | inr (rg, found) ↦
            let id = (rs.idcnt + 1) % u64_mod in
            let made = update rules rl (added_rule (rules rl) rg id) in
            let o' : AreOrdered made =
              AreOrdered-update rules rl (added_rule (rules rl) rg id) o fresh refl in
            rw dynamic (
              rw found (
                AreOrdered-put_subset made rg (placed made (rules rl).priority rl (made rg).subset)
                  o'
                  (IsSorted-placed made (rules rl).priority rl (made rg).subset (rw (==-refl rl))
                    (o' rg))))
      ]
    ]

unlink-AreOrdered :
    (rules : ℕ → Rule) (rs : Ruleset) (rg rl : ℕ)
    → AreOrdered rules
    → AreOrdered (ruleset_unlink rules rs rg rl).0
unfolding ruleset_unlink
unlink-AreOrdered rules rs rg rl o =
    AreOrdered-put_subset rules rg (without rl (rules rg).subset) o
      (IsSorted-without rules rl (pos 0) (rules rg).subset (o rg))

ruleset_remove-AreOrdered :
    (rules : ℕ → Rule) (rs : Ruleset) (rname : String) (id : ℕ)
    → AreOrdered rules
    → AreOrdered (ruleset_remove rules rs rname id).1
unfolding ruleset_remove
ruleset_remove-AreOrdered rules rs rname id o =
    elim (Option-cases (ruleset_lookup rules rs rname)) [
      | inl no_group ↦ rw (no_group, ruleset_remove) o
      | inr (rg, found) ↦ elim (Option-cases (find_id rules id (rules rg).subset)) [
        | inl no_rule ↦ rw (found, ruleset_remove) (rw no_rule o)
        | inr (rl, hit) ↦ rw (found, ruleset_remove) (rw hit (unlink-AreOrdered rules rs rg rl o))
      ]
    ]

ruleset_remkey-AreOrdered :
    (rules : ℕ → Rule) (rs : Ruleset) (rname : String) (key : List ℕ)
    → AreOrdered rules
    → AreOrdered (ruleset_remkey rules rs rname key).1
unfolding ruleset_remkey
ruleset_remkey-AreOrdered rules rs rname key o =
    elim (Option-cases (ruleset_lookup rules rs rname)) [
      | inl no_group ↦ rw (no_group, ruleset_remkey) o
      | inr (rg, found) ↦ elim (Option-cases (find_key rules key (rules rg).subset none)) [
        | inl no_rule ↦ rw (found, ruleset_remkey) (rw no_rule o)
        | inr (rl, hit) ↦ rw (found, ruleset_remkey) (rw hit (unlink-AreOrdered rules rs rg rl o))
      ]
    ]

ruleset_flush-AreOrdered :
    (rules : ℕ → Rule) (rs : Ruleset) (rname : String)
    → AreOrdered rules
    → AreOrdered (ruleset_flush rules rs rname).1
unfolding ruleset_flush
ruleset_flush-AreOrdered rules rs rname o = elim (Option-cases (ruleset_lookup rules rs rname)) [
  | inl no_group ↦ rw (no_group, ruleset_flush) o
  | inr (rg, found) ↦ rw (found, ruleset_flush) (AreOrdered-put_subset rules rg [] o tt)
]

-- A change of the dynamic rules, by `npf_ruleset_add` of a rule that is in no group, and the others.
pub data Change (rules : ℕ → Rule) (rs : Ruleset) (rules' : ℕ → Rule) (rs' : Ruleset) : Type 0 where
  add :
      (rname : String) (rl : ℕ)
      → ((q : ℕ) → ¬ (In rl (rules q).subset))
      → rules' ≡ (ruleset_add rules rs rname rl).1
      → rs' ≡ (ruleset_add rules rs rname rl).2
      → Change rules rs rules' rs'
  remove :
      (rname : String) (id : ℕ)
      → rules' ≡ (ruleset_remove rules rs rname id).1
      → rs' ≡ (ruleset_remove rules rs rname id).2
      → Change rules rs rules' rs'
  remkey :
      (rname : String) (key : List ℕ)
      → rules' ≡ (ruleset_remkey rules rs rname key).1
      → rs' ≡ (ruleset_remkey rules rs rname key).2
      → Change rules rs rules' rs'
  flush :
      (rname : String)
      → rules' ≡ (ruleset_flush rules rs rname).1
      → rs' ≡ (ruleset_flush rules rs rname).2
      → Change rules rs rules' rs'

pub data Changes (rules : ℕ → Rule) (rs : Ruleset) : (ℕ → Rule) → Ruleset → Type 0 where
  done : Changes rules rs rules rs
  later :
      {rules' rules'' : ℕ → Rule} {rs' rs'' : Ruleset}
      → Changes rules rs rules' rs'
      → Change rules' rs' rules'' rs''
      → Changes rules rs rules'' rs''

Change-AreOrdered :
    (rules rules' : ℕ → Rule) (rs rs' : Ruleset)
    → Change rules rs rules' rs'
    → AreOrdered rules
    → AreOrdered rules'
Change-AreOrdered rules rules' rs rs' (add rname rl fresh e f) o =
    rw e (ruleset_add-AreOrdered rules rs rname rl o fresh)
Change-AreOrdered rules rules' rs rs' (remove rname id e f) o =
    rw e (ruleset_remove-AreOrdered rules rs rname id o)
Change-AreOrdered rules rules' rs rs' (remkey rname key e f) o =
    rw e (ruleset_remkey-AreOrdered rules rs rname key o)
Change-AreOrdered rules rules' rs rs' (flush rname e f) o =
    rw e (ruleset_flush-AreOrdered rules rs rname o)

-- However dynamic rules are added, each while it is in no group, removed by number or by key and
-- flushed, from groups without rules, the rules of every group stay in the order of their
-- priorities, none of which is negative.
pub Changes-AreOrdered :
    (rules : ℕ → Rule) (rs : Ruleset) {rules' : ℕ → Rule} {rs' : Ruleset}
    → ((rg : ℕ) → (rules rg).subset ≡ [])
    → Changes rules rs rules' rs'
    → AreOrdered rules'
Changes-AreOrdered rules rs e done rg = rw (e rg) tt
Changes-AreOrdered rules rs e (later {rules'} {rules''} {rs'} {rs''} before change) rg =
    Change-AreOrdered rules' rules'' rs' rs'' change (Changes-AreOrdered rules rs e before) rg
