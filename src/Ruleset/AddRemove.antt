-- ===== src/Ruleset/AddRemove.antt =====
-- A rule that is added to a dynamic group and removed by its number.
use Prim.Native.String.{String}
use npf.Prelude.{
  without, ℕ, ◌+◌, ◌%◌, ◌≡◌, ◌≢◌, inl, inr, refl, sym, ap, ◌∙◌, subst, arith, true, Bool-cases,
  List, [], ◌∷◌, Option, none, some, ==→eq, ==-refl, update, In, ℤ, u64_mod,
}
use npf.Ruleset.{Rule, Ruleset, is_dynamic_rule}
use npf.Ruleset.Config.{
  RuleErrno, lookup_in, ruleset_lookup, insert_by_priority, is_pri_first, put_subset, added_rule,
  placed, ruleset_add, find_id, ruleset_unlink, ruleset_remove,
}

lookup_same :
    (rules rules' : ℕ → Rule) (name : String) (xs : List ℕ)
    → ((q : ℕ) → (rules' q).name ≡ (rules q).name)
    → lookup_in rules' name xs ≡ lookup_in rules name xs
unfolding lookup_in
lookup_same rules rules' name [] same = refl
lookup_same rules rules' name (x ∷ xs) same =
    rw (same x) (rw (lookup_same rules rules' name xs same) refl)

without-insert_by_priority :
    (rules : ℕ → Rule) (rl : ℕ) (xs : List ℕ)
    → ¬ (In rl xs)
    → without rl (insert_by_priority rules rl xs) ≡ xs
unfolding without insert_by_priority
without-insert_by_priority rules rl [] fresh = rw (==-refl rl)
without-insert_by_priority rules rl (x ∷ xs) fresh =
    let other : rl ≢ x = (λ e. fresh (inl e)) in
    let later = without-insert_by_priority rules rl xs (λ i. fresh (inr i)) in
    ground (arith, ==→eq rl x, ==-refl rl)

without_head : (rl : ℕ) (xs : List ℕ) → without rl (rl ∷ xs) ≡ xs
unfolding without
without_head rl xs = rw (==-refl rl)

without-placed :
    (rules : ℕ → Rule) (priocmd : ℤ) (rl : ℕ) (xs : List ℕ)
    → ¬ (In rl xs)
    → without rl (placed rules priocmd rl xs) ≡ xs
unfolding without
without-placed rules priocmd rl xs fresh = elim (Bool-cases (is_pri_first priocmd)) [
  | inl first ↦ rw first (rw (==-refl rl))
  | inr other ↦ rw other (without-insert_by_priority rules rl xs fresh)
]

find_id-insert_by_priority :
    (rules m : ℕ → Rule) (rl id : ℕ) (xs : List ℕ)
    → (m rl).id ≡ id
    → ((q : ℕ) → In q xs → (m q).id ≢ id)
    → find_id m id (insert_by_priority rules rl xs) ≡ some rl
unfolding find_id insert_by_priority
find_id-insert_by_priority rules m rl id [] e others = ground (arith, ==-refl id)
find_id-insert_by_priority rules m rl id (x ∷ xs) e others =
    let other = others x (inl refl) in
    let later = find_id-insert_by_priority rules m rl id xs e (λ q i. others q (inr i)) in
    ground (arith, ==→eq (m x).id id, ==-refl id)

find_id-placed :
    (rules m : ℕ → Rule) (priocmd : ℤ) (rl id : ℕ) (xs : List ℕ)
    → (m rl).id ≡ id
    → ((q : ℕ) → In q xs → (m q).id ≢ id)
    → find_id m id (placed rules priocmd rl xs) ≡ some rl
unfolding find_id
find_id-placed rules m priocmd rl id xs e others = elim (Bool-cases (is_pri_first priocmd)) [
  | inl first ↦ rw first (ground (arith, ==-refl id))
  | inr other ↦ rw other (find_id-insert_by_priority rules m rl id xs e others)
]

module _ (rules : ℕ → Rule) (rs : Ruleset) (rname : String) (rl rg : ℕ) where
  abbrev new_id : ℕ
  new_id = (rs.idcnt + 1) % u64_mod

  abbrev made : ℕ → Rule
  made = update rules rl (added_rule (rules rl) rg new_id)

  abbrev grown : ℕ → Rule
  grown = put_subset made rg (placed made (rules rl).priority rl (rules rg).subset)

  grown-name : (q : ℕ) → (grown q).name ≡ (rules q).name
  grown-name q = ground (arith, ==→eq rg q, ==→eq rl q, ==→eq rl rg)

  grown_id : (q : ℕ) → rl ≢ q → (grown q).id ≡ (rules q).id
  grown_id q ne = ground (arith, ==→eq rg q, ==→eq rl q, ==→eq rl rg)

  grown_new : rl ≢ rg → (grown rl).id ≡ new_id
  grown_new ne = ground (arith, ==→eq rg rl, ==-refl rl, ==→eq rl rg)

  add_lem :
      is_dynamic_rule (rules rl).attr ≡ true
      → ruleset_lookup rules rs rname ≡ some rg
      → rl ≢ rg
      → ruleset_add rules rs rname rl
        ≡ (none, grown, record rs { idcnt = new_id; all = rl ∷ rs.all })
  unfolding ruleset_add
  add_lem d found ne =
      let result : List ℕ → Option RuleErrno × (ℕ → Rule) × Ruleset = λ xs. (
        none,
        put_subset made rg (placed made (rules rl).priority rl xs),
        record rs { idcnt = new_id; all = rl ∷ rs.all },
      ) in
      let same : (made rg).subset ≡ (rules rg).subset = ground (arith, ==→eq rl rg) in
      rw d (rw (found, ruleset_add) (ap result same))

  group_lem : (grown rg).subset ≡ placed made (rules rl).priority rl (rules rg).subset
  group_lem = rw (==-refl rg)

  remove_lem :
      (rs' : Ruleset)
      → ruleset_lookup rules rs rname ≡ some rg
      → rs'.dynamic ≡ rs.dynamic
      → rl ≢ rg
      → ¬ (In rl (rules rg).subset)
      → ((q : ℕ) → In q (rules rg).subset → (rules q).id ≢ new_id)
      → ruleset_remove grown rs' rname new_id ≡ (
        none,
        put_subset grown rg (rules rg).subset,
        record rs' { all = without rl rs'.all; gc = rl ∷ rs'.gc },
      )
  unfolding ruleset_remove ruleset_unlink
  remove_lem rs' found same ne fresh others =
      let result : List ℕ → Option RuleErrno × (ℕ → Rule) × Ruleset = λ xs.
        (none, put_subset grown rg xs, record rs' { all = without rl rs'.all; gc = rl ∷ rs'.gc }) in
      let at : ruleset_lookup grown rs' rname ≡ some rg =
        ap (lookup_in grown rname) same
        ∙ (lookup_same rules grown rname rs.dynamic grown-name ∙ found) in
      let other : (q : ℕ) → In q (rules rg).subset → (grown q).id ≢ new_id = λ q i e.
        others q i
          (sym (grown_id q (λ f. fresh (subst (λ x. In x (rules rg).subset) (sym f) i))) ∙ e) in
      let hit : find_id grown new_id (grown rg).subset ≡ some rl =
        ap (find_id grown new_id) group_lem
        ∙ find_id-placed made grown (rules rl).priority rl new_id (rules rg).subset (grown_new ne)
            other in
      let left : without rl (grown rg).subset ≡ (rules rg).subset =
        ap (without rl) group_lem
        ∙ without-placed made (rules rl).priority rl (rules rg).subset fresh in
      rw (at, ruleset_remove) (rw (hit, ruleset_remove) (ap result left))

  -- After a dynamic rule is added to the group of a name, while it is not in that group and unlike it,
  -- and gets a number that is not one of the group's, removing that number from the group succeeds,
  -- and leaves the rules of the group and the list of all rules as they were; the rule is to be
  -- destroyed.
  pub ruleset_remove-ruleset_add :
      is_dynamic_rule (rules rl).attr ≡ true
      → ruleset_lookup rules rs rname ≡ some rg
      → rl ≢ rg
      → ¬ (In rl (rules rg).subset)
      → ((q : ℕ) → In q (rules rg).subset → (rules q).id ≢ (rs.idcnt + 1) % u64_mod)
      → let added = ruleset_add rules rs rname rl in
        let removed = ruleset_remove added.1 added.2 rname added.2.idcnt in
        (added.0 ≡ none)
        × (removed.0 ≡ none)
        × ((removed.1 rg).subset ≡ (rules rg).subset)
        × (removed.2.all ≡ rs.all)
        × (removed.2.gc ≡ rl ∷ rs.gc)
  ruleset_remove-ruleset_add d found ne fresh others = rw (add_lem d found ne) (
      let rs' : Ruleset = record rs { idcnt = new_id; all = rl ∷ rs.all } in
      let e = remove_lem rs' found refl ne fresh others in
      (
        refl,
        ap (λ r. r.0) e,
        ap (λ r. (r.1 rg).subset) e ∙ rw (==-refl rg),
        ap (λ r. r.2.all) e ∙ without_head rl rs.all,
        ap (λ r. r.2.gc) e,
      ))
