-- ===== src/Params/Known.antt =====
-- What a registry of parameters holds: its parameters one by one, as they are registered and set.
use Prim.Native.String.{String}
use text.Mathlib.Text.{◌==◌ as str_eq}
use text.Mathlib.TextEquality.{eq_iff}
use npf.Prelude.{
  ◌≡◌, ◌≢◌, ◌⊎◌, Bool, true, false, not, ◌&&◌, arith, none, some, List, [], ◌∷◌, ℤ, ◌==◌, sym, refl,
  ap, Option-cases, Bool-cases, ==→eq, inl, inr, name_eq, ==-refl, ◌∙◌, subst,
}
use npf.Thmap.{Thmap}
use npf.Params.{Param, ParamInfo, out_of_range, param_lookup, register_one, store, param_set}
use npf.Params.Registry.{IsSound}

-- `param` has the name and the variable of none of the others.
abbrev pub is_fresh : Param → List Param → Bool
is_fresh param [] = true
is_fresh param (q ∷ rest) =
    not (str_eq q.name param.name) && (not (q.valp == param.valp) && is_fresh param rest)

abbrev pub In : Param → List Param → Type 0
In p [] = ⊥
In p (q ∷ rest) = (p ≡ q) ⊎ In p rest

fresh_apart :
    (param : Param) (seen : List Param) (p : Param)
    → is_fresh param seen ≡ true
    → In p seen
    → (p.name ≢ param.name) × (p.valp ≢ param.valp)
fresh_apart param [] p f i = absurd i
fresh_apart param (q ∷ rest) p f (inl e) = (
  λ n. ground (arith, eq_iff q.name param.name, sym (ap (λ (r : Param). r.name) e) ∙ n),
  λ v. ground (arith, sym (ap (λ (r : Param). r.valp) e) ∙ v),
)
fresh_apart param (q ∷ rest) p f (inr i) = fresh_apart param rest p (ground arith) i

some_same : (p q : Param) → some p ≡ some q → p ≡ q
some_same p q e = cc

module _ (maps : Thmap String Param) where
  -- The registry has exactly the parameters `seen`, each under its name, with a value in its range and
  -- a variable of its own.
  pub record Knows (info : ParamInfo maps) (seen : List Param) : Type 0 where
    pub only :
        (n : String) (p : Param) → param_lookup maps info n ≡ some p → In p seen × (p.name ≡ n)
    pub found : (p : Param) → In p seen → param_lookup maps info p.name ≡ some p
    pub ranged : (p : Param) → In p seen → out_of_range p (info.vars p.valp) ≡ false
    pub one_each : (p q : Param) → In p seen → In q seen → p.valp ≡ q.valp → p ≡ q

  pub Knows-IsSound :
      (info : ParamInfo maps) (seen : List Param) → Knows info seen → IsSound maps info
  Knows-IsSound info seen k = record {
    in_range = λ n p h. ground (arith, k.ranged p (k.only n p h).0);
    apart = λ n m p q hp hq e.
        let same = k.one_each p q (k.only n p hp).0 (k.only m q hq).0 e in
        (sym (k.only n p hp).1 ∙ (ap (λ (r : Param). r.name) same ∙ (k.only m q hq).1), same);
  }

  absent :
      (info : ParamInfo maps) (seen : List Param) (param : Param)
      → Knows info seen
      → is_fresh param seen ≡ true
      → param_lookup maps info param.name ≡ none
  absent info seen param k f = elim (Option-cases (param_lookup maps info param.name)) [
    | inl e ↦ e
    | inr (p, e) ↦ let o = k.only param.name p e in absurd ((fresh_apart param seen p f o.0).0 o.1)
  ]

  module _ (info : ParamInfo maps) (seen : List Param) (param : Param) where
    only_new :
        (n : String) (p : Param)
        → Knows info seen
        → is_fresh param seen ≡ true
        → param_lookup maps (register_one maps info param) n ≡ some p
        → In p (param ∷ seen) × (p.name ≡ n)
    unfolding register_one param_lookup
    only_new n p k f h = elim (name_eq param.name n) [
      | yes e ↦
          let here = maps.get-put info.names param.name param (absent info seen param k f) in
          let moved =
            subst (λ x. maps.get (maps.put info.names param.name param).0 x ≡ some param) e here in
          let same = some_same p param (sym h ∙ moved) in
          (inl same, ap (λ (r : Param). r.name) same ∙ e)
      | no ne ↦
          let there = maps.get-put_ne info.names param.name n param ne in
          let o = k.only n p (sym there ∙ h) in (inr o.0, o.1)
    ]

    found_new :
        (p : Param)
        → Knows info seen
        → is_fresh param seen ≡ true
        → In p (param ∷ seen)
        → param_lookup maps (register_one maps info param) p.name ≡ some p
    unfolding register_one param_lookup
    found_new p k f (inl e) =
        rw e (maps.get-put info.names param.name param (absent info seen param k f))
    found_new p k f (inr i) =
        maps.get-put_ne info.names param.name p.name param
          (λ e. (fresh_apart param seen p f i).0 (sym e))
        ∙ k.found p i

    pub set_new : (register_one maps info param).vars param.valp ≡ param.default_val
    unfolding register_one
    set_new = rw (==-refl param.valp) refl

    pub kept_new :
        (p : Param)
        → is_fresh param seen ≡ true
        → In p seen
        → (register_one maps info param).vars p.valp ≡ info.vars p.valp
    unfolding register_one
    kept_new p f i = ground (arith, fresh_apart param seen p f i)

    ranged_new :
        (p : Param)
        → Knows info seen
        → is_fresh param seen ≡ true
        → out_of_range param param.default_val ≡ false
        → In p (param ∷ seen)
        → out_of_range p ((register_one maps info param).vars p.valp) ≡ false
    ranged_new p k f r (inl e) = rw (e, set_new) r
    ranged_new p k f r (inr i) = rw (kept_new p f i) (k.ranged p i)

    one_new :
        (p q : Param)
        → Knows info seen
        → is_fresh param seen ≡ true
        → In p (param ∷ seen)
        → In q (param ∷ seen)
        → p.valp ≡ q.valp
        → p ≡ q
    one_new p q k f (inl e) (inl d) v = e ∙ sym d
    one_new p q k f (inl e) (inr j) v =
        absurd ((fresh_apart param seen q f j).1 (sym v ∙ ap (λ (r : Param). r.valp) e))
    one_new p q k f (inr i) (inl d) v =
        absurd ((fresh_apart param seen p f i).1 (v ∙ ap (λ (r : Param). r.valp) d))
    one_new p q k f (inr i) (inr j) v = k.one_each p q i j v

    pub register_one-Knows :
        Knows info seen
        → is_fresh param seen ≡ true
        → out_of_range param param.default_val ≡ false
        → Knows (register_one maps info param) (param ∷ seen)
    register_one-Knows k f r = record {
      only = λ n p h. only_new n p k f h;
      found = λ p i. found_new p k f i;
      ranged = λ p i. ranged_new p k f r i;
      one_each = λ p q i j v. one_new p q k f i j v;
    }

  set_ranged :
      (info : ParamInfo maps) (seen : List Param) (q p : Param) (val : ℤ)
      → Knows info seen
      → In q seen
      → In p seen
      → out_of_range q val ≡ false
      → out_of_range p (store info.vars q.valp val p.valp) ≡ false
  set_ranged info seen q p val k iq ip ok = elim (Bool-cases (q.valp == p.valp)) [
    | inl same ↦ let e = k.one_each q p iq ip (==→eq _ _ same) in rw (same, sym e) ok
    | inr other ↦ rw other (k.ranged p ip)
  ]

  stored-Knows :
      (info : ParamInfo maps) (seen : List Param) (q : Param) (val : ℤ)
      → Knows info seen
      → In q seen
      → out_of_range q val ≡ false
      → Knows (record info { vars = store info.vars q.valp val }) seen
  unfolding param_lookup
  stored-Knows info seen q val k i ok = record {
    only = λ n p h. k.only n p h;
    found = λ p j. k.found p j;
    ranged = λ p j. set_ranged info seen q p val k i j ok;
    one_each = λ p r j m v. k.one_each p r j m v;
  }

  -- Setting a parameter, to any effect, keeps what the registry holds.
  pub param_set-Knows :
      (info : ParamInfo maps) (seen : List Param) (name : String) (val : ℤ)
      → Knows info seen
      → Knows (param_set maps info name val).1 seen
  unfolding param_set
  param_set-Knows info seen name val k = elim (Option-cases (param_lookup maps info name)) [
    | inl e ↦ rw (e, param_set) k
    | inr (q, e) ↦ elim (Bool-cases (out_of_range q val)) [
      | inl out ↦ rw (e, param_set) (rw out k)
      | inr ok ↦ rw (e, param_set) (rw ok (stored-Knows info seen q val k (k.only name q e).0 ok))
    ]
  ]
