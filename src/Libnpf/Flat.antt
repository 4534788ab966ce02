-- ===== src/Libnpf/Flat.antt =====
-- The array that src/libnpf/npf.c makes of nested rules, and the marks of the groups.
use npf.Prelude.{
  ℕ, ◌+◌, ◌≡◌, ◌≢◌, refl, sym, ap, ◌∙◌, arith, List, [], ◌∷◌, ◌++◌, Option, none, some, length,
  length-append, update, update_same, update_other,
}
use npf.Libnpf.{Rules, nil, entry, Config, with_mark, with_rule, rules_process}

-- The rules in the order in which they are written, each before its subrules.
abbrev pub preorder : Rules → List ℕ
preorder nil = []
preorder (entry id subrules rest) = id ∷ (preorder subrules ++ preorder rest)

-- The number of rules.
abbrev pub size : Rules → ℕ
size nil = 0
size (entry id subrules rest) = 1 + size subrules + size rest

abbrev pub Avoids : ℕ → Rules → Type 0
Avoids x nil = Unit
Avoids x (entry id subrules rest) = (id ≢ x) × Avoids x subrules × Avoids x rest

-- No rule of the first list is one of the second.
abbrev pub AreApart : Rules → Rules → Type 0
AreApart nil others = Unit
AreApart (entry id subrules rest) others =
    Avoids id others × AreApart subrules others × AreApart rest others

-- All rules are different.
abbrev pub AreDistinct : Rules → Type 0
AreDistinct nil = Unit
AreDistinct (entry id subrules rest) =
    Avoids id subrules
    × Avoids id rest
    × AreApart subrules rest
    × AreDistinct subrules
    × AreDistinct rest

-- The rules stand from the position `n` on: a rule with subrules is marked with the position after them,
-- and a rule without is not marked.
abbrev pub AreMarked : (ℕ → Option ℕ) → ℕ → Rules → Type 0
AreMarked skip n nil = Unit
AreMarked skip n (entry id nil rest) = (skip id ≡ none) × AreMarked skip (n + 1) rest
AreMarked skip n (entry id (entry i subrules later) rest) =
    let m = n + 1 + size (entry i subrules later) in
    (skip id ≡ some m) × AreMarked skip (n + 1) (entry i subrules later) × AreMarked skip m rest

-- No rule is marked.
abbrev pub AreBlank : (ℕ → Option ℕ) → Rules → Type 0
AreBlank skip nil = Unit
AreBlank skip (entry id subrules rest) =
    (skip id ≡ none) × AreBlank skip subrules × AreBlank skip rest

length-preorder : (r : Rules) → length (preorder r) ≡ size r
length-preorder nil = refl
length-preorder (entry id subrules rest) = omega (
  arith,
  length-append (preorder subrules) (preorder rest),
  length-preorder subrules,
  length-preorder rest,
)

append_one : (xs ys : List ℕ) (id : ℕ) → (xs ++ (id ∷ [])) ++ ys ≡ xs ++ (id ∷ ys)
append_one [] ys id = refl
append_one (x ∷ xs) ys id = ap (λ l. x ∷ l) (append_one xs ys id)

append_nil : (xs : List ℕ) → xs ++ [] ≡ xs
append_nil [] = refl
append_nil (x ∷ xs) = ap (λ l. x ∷ l) (append_nil xs)

append_both : (xs ys zs : List ℕ) → (xs ++ ys) ++ zs ≡ xs ++ (ys ++ zs)
append_both [] ys zs = refl
append_both (x ∷ xs) ys zs = ap (λ l. x ∷ l) (append_both xs ys zs)

-- The array grows by the rules in their order.
rule_list-process :
    (ncf : Config) (r : Rules) → (rules_process ncf r).rule_list ≡ ncf.rule_list ++ preorder r
unfolding rules_process
rule_list-process ncf nil = sym (append_nil ncf.rule_list)
rule_list-process ncf (entry id nil rest) =
    rule_list-process (with_rule ncf id) rest ∙ append_one ncf.rule_list (preorder rest) id
rule_list-process ncf (entry id (entry i subrules later) rest) =
    let inner = entry i subrules later in
    let first = rules_process (with_rule ncf id) (entry i subrules later) in
    rule_list-process (with_mark first id) rest
    ∙ (ap (λ l. l ++ preorder rest) (rule_list-process (with_rule ncf id) (entry i subrules later))
        ∙ (append_both (ncf.rule_list ++ (id ∷ [])) (preorder inner) (preorder rest)
            ∙ append_one ncf.rule_list (preorder inner ++ preorder rest) id))

-- A rule that is not in the list keeps its mark.
skip-process :
    (ncf : Config) (r : Rules) (x : ℕ)
    → Avoids x r
    → (rules_process ncf r).skip_to x ≡ ncf.skip_to x
unfolding rules_process
skip-process ncf nil x a = refl
skip-process ncf (entry id nil rest) x a = skip-process (with_rule ncf id) rest x a.2
skip-process ncf (entry id (entry i subrules later) rest) x a =
    let inner = entry i subrules later in
    let first = rules_process (with_rule ncf id) (entry i subrules later) in
    skip-process (with_mark first id) rest x a.2
    ∙ (update_other first.skip_to id x (some (length first.rule_list)) a.0
        ∙ skip-process (with_rule ncf id) (entry i subrules later) x a.1)

AreBlank-update :
    (skip : ℕ → Option ℕ) (id : ℕ) (v : Option ℕ) (r : Rules)
    → Avoids id r
    → AreBlank skip r
    → AreBlank (update skip id v) r
AreBlank-update skip id v nil a b = b
AreBlank-update skip id v (entry i subrules rest) a b = (
  update_other skip id i v (λ e. a.0 (sym e)) ∙ b.0,
  AreBlank-update skip id v subrules a.1 b.1,
  AreBlank-update skip id v rest a.2 b.2,
)

AreBlank-process :
    (ncf : Config) (r others : Rules)
    → AreApart r others
    → AreBlank ncf.skip_to others
    → AreBlank (rules_process ncf r).skip_to others
unfolding rules_process
AreBlank-process ncf nil others a b = b
AreBlank-process ncf (entry id nil rest) others a b =
    AreBlank-process (with_rule ncf id) rest others a.2 b
AreBlank-process ncf (entry id (entry i subrules later) rest) others a b =
    let inner = entry i subrules later in
    let first = rules_process (with_rule ncf id) (entry i subrules later) in
    AreBlank-process (with_mark first id) rest others a.2 (
      AreBlank-update first.skip_to id (some (length first.rule_list)) others a.0
        (AreBlank-process (with_rule ncf id) (entry i subrules later) others a.1 b))

AreMarked-update :
    (skip : ℕ → Option ℕ) (id : ℕ) (v : Option ℕ) (n : ℕ) (r : Rules)
    → Avoids id r
    → AreMarked skip n r
    → AreMarked (update skip id v) n r
AreMarked-update skip id v n nil a m = m
AreMarked-update skip id v n (entry i nil rest) a m = (
  update_other skip id i v (λ e. a.0 (sym e)) ∙ m.0,
  AreMarked-update skip id v (n + 1) rest a.2 m.1,
)
AreMarked-update skip id v n (entry i (entry j subrules later) rest) a m = (
  update_other skip id i v (λ e. a.0 (sym e)) ∙ m.0,
  AreMarked-update skip id v (n + 1) (entry j subrules later) a.1 m.1,
  AreMarked-update skip id v (n + 1 + size (entry j subrules later)) rest a.2 m.2,
)

AreMarked-process :
    (ncf : Config) (r others : Rules) (n : ℕ)
    → AreApart r others
    → AreMarked ncf.skip_to n r
    → AreMarked (rules_process ncf others).skip_to n r
AreMarked-process ncf nil others n a m = m
AreMarked-process ncf (entry id nil rest) others n a m =
    (skip-process ncf others id a.0 ∙ m.0, AreMarked-process ncf rest others (n + 1) a.2 m.1)
AreMarked-process ncf (entry id (entry i subrules later) rest) others n a m = (
  skip-process ncf others id a.0 ∙ m.0,
  AreMarked-process ncf (entry i subrules later) others (n + 1) a.1 m.1,
  AreMarked-process ncf rest others (n + 1 + size (entry i subrules later)) a.2 m.2,
)

longer :
    (ncf : Config) (n id : ℕ)
    → n ≡ length ncf.rule_list
    → n + 1 ≡ length (with_rule ncf id).rule_list
longer ncf n id e = omega (arith, e, length-append ncf.rule_list (id ∷ []))

counted :
    (ncf : Config) (r : Rules) (n : ℕ)
    → n ≡ length ncf.rule_list
    → n + size r ≡ length (rules_process ncf r).rule_list
counted ncf r n e = omega (
  arith,
  e,
  ap length (rule_list-process ncf r),
  length-append ncf.rule_list (preorder r),
  length-preorder r,
)

process-AreMarked :
    (ncf : Config) (r : Rules) (n : ℕ)
    → n ≡ length ncf.rule_list
    → AreDistinct r
    → AreBlank ncf.skip_to r
    → AreMarked (rules_process ncf r).skip_to n r
unfolding rules_process
process-AreMarked ncf nil n e d b = tt
process-AreMarked ncf (entry id nil rest) n e d b = (
  skip-process (with_rule ncf id) rest id d.1 ∙ b.0,
  process-AreMarked (with_rule ncf id) rest (n + 1) (longer ncf n id e) d.4 b.2,
)
process-AreMarked ncf (entry id (entry i subrules later) rest) n e d b =
    let inner = entry i subrules later in
    let first = rules_process (with_rule ncf id) inner in
    let next = with_mark first id in
    let m = n + 1 + size inner in
    let count : m ≡ length first.rule_list =
      counted (with_rule ncf id) inner (n + 1) (longer ncf n id e) in
    let own =
      process-AreMarked (with_rule ncf id) (entry i subrules later) (n + 1) (longer ncf n id e) d.3
        b.1 in
    let unmarked = AreBlank-process (with_rule ncf id) inner rest d.2 b.2 in
    (
      skip-process next rest id d.1
          ∙ (update_same first.skip_to id id (some (length first.rule_list)) refl
              ∙ ap some (sym count)),
      AreMarked-process next inner rest (n + 1) d.2
          (AreMarked-update first.skip_to id (some (length first.rule_list)) (n + 1) inner d.0 own),
      process-AreMarked next rest m count d.4
          (AreBlank-update first.skip_to id (some (length first.rule_list)) rest d.1 unmarked),
    )

AreBlank-none : (r : Rules) → AreBlank (λ id. none) r
AreBlank-none nil = tt
AreBlank-none (entry id subrules rest) = (refl, AreBlank-none subrules, AreBlank-none rest)

-- Nested rules that are all different are processed to the array of the rules in the order in which they
-- are written, each before its subrules; a rule with subrules is marked with the position right after the
-- last rule below it, and no other rule is marked.
pub rules_process-AreMarked :
    (r : Rules)
    → AreDistinct r
    → ((rules_process (record { rule_list = []; skip_to = λ id. none }) r).rule_list ≡ preorder r)
      × AreMarked (rules_process (record { rule_list = []; skip_to = λ id. none }) r).skip_to 0 r
rules_process-AreMarked r d =
    let start : Config = record { rule_list = []; skip_to = λ id. none } in
    (rule_list-process start r, process-AreMarked start r 0 refl d (AreBlank-none r))
