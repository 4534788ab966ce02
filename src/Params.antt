-- ===== src/Params.antt =====
-- The registry of parameters, src/kern/npf_params.c. A variable that a `valp` points at is a number,
-- and `vars` is the memory of these variables.
pub mod Registry
pub mod Known
pub mod Register
pub mod Tables
mod Tests
use Prim.Native.String.{String}
use npf.Prelude.{
  ℕ, Bool, ◌||◌, Option, none, some, List, [], ◌∷◌, ◌++◌, ◌==◌, if◌then◌else◌, ℤ, ltb_ℤ,
}
use npf.Thmap.{Thmap}

-- `npf_param_t`
pub record Param : Type 0 where
  pub name : String
  pub valp : ℕ
  pub default_val : ℤ
  pub min : ℤ
  pub max : ℤ

-- What the functions return as an `errno`.
pub data Errno : Type 0 where
  enoent einval : Errno

-- `*valp = val`
abbrev pub store : (ℕ → ℤ) → ℕ → ℤ → ℕ → ℤ
store vars p val q = if p == q then val else vars q

abbrev pub out_of_range : Param → ℤ → Bool
out_of_range param val = ltb_ℤ val param.min || ltb_ℤ param.max val

module _ (maps : Thmap String Param) where
  -- `npf_paraminfo_t`, with the variables.
  pub record ParamInfo : Type 0 where
    pub registries : List (List Param)
    pub names : maps.Map
    pub vars : ℕ → ℤ

  -- The body of the loop of `npf_param_register`.
  unfoldable pub register_one : ParamInfo → Param → ParamInfo
  register_one info param = record info {
    names = (maps.put info.names param.name param).0;
    vars = store info.vars param.valp param.default_val;
  }

  unfoldable pub register_loop : ParamInfo → List Param → ParamInfo
  register_loop info [] = info
  register_loop info (param ∷ rest) = register_loop (register_one info param) rest

  -- `npf_param_register`
  unfoldable pub param_register : ParamInfo → List Param → ParamInfo
  param_register info params =
      let done = register_loop info params in record done { registries = params ∷ done.registries }

  -- `npf_param_lookup`
  unfoldable pub param_lookup : ParamInfo → String → Option Param
  param_lookup info name = maps.get info.names name

  -- `npf_param_check`; `none` is a return of 0.
  unfoldable pub param_check : ParamInfo → String → ℤ → Option Errno
  param_check info name val = elim (param_lookup info name) [
    | none ↦ some enoent
    | some param ↦ if out_of_range param val then some einval else none
  ]

  -- `npfk_param_get`: the value that is stored, on success.
  unfoldable pub param_get : ParamInfo → String → Option ℤ
  param_get info name = elim (param_lookup info name) [
    | none ↦ none
    | some param ↦ some (info.vars param.valp)
  ]

  -- `npfk_param_set`
  unfoldable pub param_set : ParamInfo → String → ℤ → Option Errno × ParamInfo
  param_set info name val = elim (param_lookup info name) [
    | none ↦ (some enoent, info)
    | some param ↦
        if out_of_range param val
        then (some einval, info)
        else (none, record info { vars = store info.vars param.valp val })
  ]

  -- The values and the defaults that `npf_params_export` writes for one registry.
  unfoldable pub export_one : ParamInfo → List Param → List (String × ℤ × ℤ)
  export_one info [] = []
  export_one info (param ∷ rest) =
      (param.name, info.vars param.valp, param.default_val) ∷ export_one info rest

  -- The loop of `npf_params_export` over the registries.
  unfoldable pub params_export : ParamInfo → List (List Param) → List (String × ℤ × ℤ)
  params_export info [] = []
  params_export info (reg ∷ rest) = export_one info reg ++ params_export info rest
