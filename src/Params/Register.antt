-- ===== src/Params/Register.antt =====
-- Registering parameters of distinct names and variables, with defaults in their ranges, makes a
-- sound registry.
use Prim.Native.String.{String}
use npf.Prelude.{ℕ, ◌≡◌, inl, inr, refl, Bool, true, not, ◌&&◌, arith, List, [], ◌∷◌, ℤ, ◌∙◌}
use npf.Thmap.{Thmap}
use npf.Params.{
  Param, ParamInfo, out_of_range, param_lookup, param_register, register_loop, register_one,
}
use npf.Params.Registry.{IsSound}
use npf.Params.Known.{is_fresh, In, Knows, Knows-IsSound, register_one-Knows, set_new, kept_new}

-- Each is apart from those before it, and has its default in its range.
abbrev pub well_formed : List Param → List Param → Bool
well_formed seen [] = true
well_formed seen (param ∷ rest) =
    is_fresh param seen
    && (not (out_of_range param param.default_val) && well_formed (param ∷ seen) rest)

module _ (maps : Thmap String Param) where
  -- The parameters in the order in which the loop has met them, the last first.
  abbrev pub met : List Param → List Param → List Param
  met seen [] = seen
  met seen (param ∷ rest) = met (param ∷ seen) rest

  -- The parameters have the values that they had.
  abbrev pub AreKept : (ℕ → ℤ) → (ℕ → ℤ) → List Param → Type 0
  AreKept before after [] = Unit
  AreKept before after (p ∷ rest) = (after p.valp ≡ before p.valp) × AreKept before after rest

  -- The parameters have their defaults.
  abbrev pub AreDefault : (ℕ → ℤ) → List Param → Type 0
  AreDefault vars [] = Unit
  AreDefault vars (p ∷ rest) = (vars p.valp ≡ p.default_val) × AreDefault vars rest

  AreKept-all :
      (before after : ℕ → ℤ) (ps : List Param)
      → ((p : Param) → In p ps → after p.valp ≡ before p.valp)
      → AreKept before after ps
  AreKept-all before after [] h = tt
  AreKept-all before after (p ∷ rest) h =
      (h p (inl refl), AreKept-all before after rest (λ q i. h q (inr i)))

  register_loop-Knows :
      (params : List Param) (info : ParamInfo maps) (seen : List Param)
      → Knows maps info seen
      → well_formed seen params ≡ true
      → Knows maps (register_loop maps info params) (met seen params)
  unfolding register_loop
  register_loop-Knows [] info seen k w = k
  register_loop-Knows (param ∷ rest) info seen k w =
      register_loop-Knows rest (register_one maps info param) (param ∷ seen)
        (register_one-Knows maps info seen param k (ground arith) (ground arith)) (ground arith)

  -- The loop does not touch the variables of the parameters before it.
  loop_kept :
      (params : List Param) (info : ParamInfo maps) (seen : List Param) (p : Param)
      → well_formed seen params ≡ true
      → In p seen
      → (register_loop maps info params).vars p.valp ≡ info.vars p.valp
  unfolding register_loop
  loop_kept [] info seen p w i = refl
  loop_kept (param ∷ rest) info seen p w i =
      loop_kept rest (register_one maps info param) (param ∷ seen) p (ground arith) (inr i)
      ∙ kept_new maps info seen param p (ground arith) i

  loop-AreDefault :
      (params : List Param) (info : ParamInfo maps) (seen : List Param)
      → well_formed seen params ≡ true
      → AreDefault (register_loop maps info params).vars params
  unfolding register_loop
  loop-AreDefault [] info seen w = tt
  loop-AreDefault (param ∷ rest) info seen w =
      let after = register_one maps info param in
      (
        loop_kept rest after (param ∷ seen) param (ground arith) (inl refl)
            ∙ set_new maps info seen param,
        loop-AreDefault rest after (param ∷ seen) (ground arith),
      )

  -- In a registry that has exactly the parameters of a list, each under its name, with a value in its
  -- range and a variable of its own, registering an array whose names and variables are new and
  -- distinct, and whose defaults are in range, leaves a sound registry that has exactly the earlier
  -- parameters and those of the array in the same way; the earlier ones have the values that they
  -- had, and those of the array their defaults.
  pub register-IsSound :
      (info : ParamInfo maps) (seen params : List Param)
      → Knows maps info seen
      → well_formed seen params ≡ true
      → IsSound maps (param_register maps info params)
        × Knows maps (param_register maps info params) (met seen params)
        × AreKept info.vars (param_register maps info params).vars seen
        × AreDefault (param_register maps info params).vars params
  unfolding param_register param_lookup
  register-IsSound info seen params k w =
      let done = register_loop-Knows params info seen k w in
      let known : Knows maps (param_register maps info params) (met seen params) = record {
        only = λ n p h. done.only n p h;
        found = λ p i. done.found p i;
        ranged = λ p i. done.ranged p i;
        one_each = λ p q i j v. done.one_each p q i j v;
      } in
      (
        Knows-IsSound maps (param_register maps info params) (met seen params) known,
        known,
        AreKept-all info.vars (param_register maps info params).vars seen
            (λ p i. loop_kept params info seen p w i),
        loop-AreDefault params info seen w,
      )

  -- The registry of `npf_param_init` before anything is registered.
  pub empty_info-Knows :
      (vars : ℕ → ℤ) → Knows maps (record { registries = []; names = maps.empty; vars = vars }) []
  unfolding param_lookup
  empty_info-Knows vars = record {
    only = λ n p h. ground (arith, maps.get_empty n);
    found = λ p i. absurd i;
    ranged = λ p i. absurd i;
    one_each = λ p q i j v. absurd i;
  }
