-- ===== src/Params/Registry.antt =====
-- What the registry promises to those who read the parameters.
use Prim.Native.String.{String}
use npf.Prelude.{
  ◌≡◌, ◌≢◌, false, arith, none, some, ℤ, ◌≤ℤ◌, ◌==◌, sym, Option-cases, Bool-cases, ==-refl, ==→eq,
  inl, inr, ◌⊎◌,
}
use npf.Thmap.{Thmap}
use npf.Params.{
  Param, ParamInfo, out_of_range, store, param_lookup, param_check, param_get, param_set,
}

module _ (maps : Thmap String Param) where
  -- `npfk_param_set` returns what `npf_param_check` foretells, and succeeds or changes nothing.
  pub set-check :
      (info : ParamInfo maps) (name : String) (val : ℤ)
      → ((param_set maps info name val).0 ≡ param_check maps info name val)
        × (((param_set maps info name val).0 ≡ none) ⊎ ((param_set maps info name val).1 ≡ info))
  unfolding param_set param_check
  set-check info name val = (ground arith, ground arith)

  -- Every named parameter holds a value in its range, and no two share a variable.
  pub record IsSound (info : ParamInfo maps) : Type 0 where
    pub in_range :
        (n : String) (p : Param)
        → param_lookup maps info n ≡ some p
        → (p.min ≤ℤ info.vars p.valp) × (info.vars p.valp ≤ℤ p.max)
    pub apart :
        (n m : String) (p q : Param)
        → param_lookup maps info n ≡ some p
        → param_lookup maps info m ≡ some q
        → p.valp ≡ q.valp
        → (n ≡ m) × (p ≡ q)

  get-set_ne :
      (info : ParamInfo maps) (name j : String) (val : ℤ) (p q : Param)
      → IsSound info
      → param_lookup maps info name ≡ some p
      → param_lookup maps info j ≡ some q
      → j ≢ name
      → store info.vars p.valp val q.valp ≡ info.vars q.valp
  get-set_ne info name j val p q sound hp hq ne = elim (Bool-cases (p.valp == q.valp)) [
    | inl same ↦ absurd (ne (sym (sound.apart name j p q hp hq (==→eq _ _ same)).0))
    | inr other ↦ rw other
  ]

  -- In a sound registry, after a value is set with success, reading the parameter gives it, and reading
  -- a parameter of another name gives what it gave before.
  pub get-set :
      (info : ParamInfo maps) (name j : String) (val : ℤ)
      → IsSound info
      → (param_set maps info name val).0 ≡ none
      → j ≢ name
      → (param_get maps (param_set maps info name val).1 name ≡ some val)
        × (param_get maps (param_set maps info name val).1 j ≡ param_get maps info j)
  unfolding param_set param_get param_lookup
  get-set info name j val sound ok ne = elim (Option-cases (param_lookup maps info name)) [
    | inl e ↦ absurd (ground arith)
    | inr (p, e) ↦ (
      ground (arith, ==-refl p.valp),
      elim (Option-cases (param_lookup maps info j)) [
        | inl f ↦ ground arith
        | inr (q, f) ↦ ground (arith, get-set_ne info name j val p q sound e f ne)
      ],
    )
  ]

  set_in_range :
      (info : ParamInfo maps) (name n : String) (val : ℤ) (q p : Param)
      → IsSound info
      → param_lookup maps info name ≡ some q
      → out_of_range q val ≡ false
      → param_lookup maps info n ≡ some p
      → (p.min ≤ℤ store info.vars q.valp val p.valp) × (store info.vars q.valp val p.valp ≤ℤ p.max)
  set_in_range info name n val q p sound hq ok hp = elim (Bool-cases (q.valp == p.valp)) [
    | inl same ↦ let e = (sound.apart name n q p hq hp (==→eq _ _ same)).1 in ground (arith, e)
    | inr other ↦ ground (arith, sound.in_range n p hp)
  ]

  stored-IsSound :
      (info : ParamInfo maps) (name : String) (val : ℤ) (q : Param)
      → IsSound info
      → param_lookup maps info name ≡ some q
      → out_of_range q val ≡ false
      → IsSound (record info { vars = store info.vars q.valp val })
  unfolding param_lookup
  stored-IsSound info name val q sound e ok = record {
    in_range = λ n p h. set_in_range info name n val q p sound e ok h;
    apart = λ n m p r. sound.apart n m p r;
  }

  -- Setting a parameter, with any value and to any effect, keeps a sound registry sound: every parameter
  -- in its range, and no two with one variable.
  pub set-IsSound :
      (info : ParamInfo maps) (name : String) (val : ℤ)
      → IsSound info
      → IsSound (param_set maps info name val).1
  unfolding param_set
  set-IsSound info name val sound = elim (Option-cases (param_lookup maps info name)) [
    | inl e ↦ rw (e, param_set) sound
    | inr (q, e) ↦ elim (Bool-cases (out_of_range q val)) [
      | inl out ↦ rw (e, param_set) (rw out sound)
      | inr ok ↦ rw (e, param_set) (rw ok (stored-IsSound info name val q sound e ok))
    ]
  ]
