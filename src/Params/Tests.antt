-- ===== src/Params/Tests.antt =====
-- The registry of the parameters of TCP, and the theorems on it.
use Prim.Native.String.{String}
use mathlib.Core.Bool.{false≢true}
use text.Mathlib.TextEquality.{eq_iff}
use npf.Prelude.{◌≡◌, ◌≢◌, refl, arith, true, [], some, none, pos, name_eq, inl, inr}
use npf.Thmap.{Thmap}
use npf.Thmap.Assoc.{assoc_map}
use npf.Params.{Param, ParamInfo, param_register, param_set, param_lookup}
use npf.Params.Registry.{IsSound}
use npf.Params.Known.{Knows, param_set-Knows}
use npf.Params.Register.{well_formed, met, AreKept, AreDefault, register-IsSound, empty_info-Knows}
use npf.Params.Tables.{param, int_max, tcp_state_params, portmap_params, all_params}

abbrev names : Thmap String Param
names = assoc_map name_eq

abbrev no_params : ParamInfo names
no_params = record { registries = []; names = names.empty; vars = λ p. pos 0 }

-- The names and the variables of all parameters that the subsystems register are distinct, and each
-- default is in its range.
all_params-well_formed : well_formed [] all_params ≡ true
all_params-well_formed = refl

abbrev tcp_info : ParamInfo names
tcp_info = param_register names no_params tcp_state_params

tcp_info-Knows :
    IsSound names tcp_info
    × Knows names tcp_info (met names [] tcp_state_params)
    × AreKept names no_params.vars tcp_info.vars []
    × AreDefault names tcp_info.vars tcp_state_params
tcp_info-Knows =
    register-IsSound names no_params [] tcp_state_params (empty_info-Knows names (λ p. pos 0)) refl

tcp_info-IsSound : IsSound names tcp_info
tcp_info-IsSound = tcp_info-Knows.0

abbrev close_name : String
close_name = "state.tcp.timeout.close"

abbrev new_name : String
new_name = "state.tcp.timeout.new"

abbrev close_timeout : Param
close_timeout = param close_name 11 10 0 int_max

close_found : param_lookup names tcp_info close_name ≡ some close_timeout
close_found = tcp_info-Knows.1.found close_timeout (inr (inr (inr (inl refl))))

set_ok : (param_set names tcp_info close_name (pos 20)).0 ≡ none
unfolding param_set
set_ok = ground (arith, close_found)

other_name : new_name ≢ close_name
other_name e = false≢true ((eq_iff new_name close_name).1 e)

-- After one parameter is set, the others of the port map are registered.
abbrev changed : ParamInfo names
changed = (param_set names tcp_info close_name (pos 20)).1

changed-Knows : Knows names changed (met names [] tcp_state_params)
changed-Knows =
    param_set-Knows names tcp_info (met names [] tcp_state_params) close_name (pos 20)
      tcp_info-Knows.1

register-IsSound_example :
    IsSound names (param_register names changed portmap_params)
    × Knows names
        (param_register names changed portmap_params)
        (met names (met names [] tcp_state_params) portmap_params)
    × AreKept names changed.vars
        (param_register names changed portmap_params).vars
        (met names [] tcp_state_params)
    × AreDefault names (param_register names changed portmap_params).vars portmap_params
register-IsSound_example =
    register-IsSound names changed (met names [] tcp_state_params) portmap_params changed-Knows refl
