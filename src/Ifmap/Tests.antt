-- ===== src/Ifmap/Tests.antt =====
-- The theorems on the map of interfaces at concrete names.
use Prim.Native.String.{String}
use npf.Prelude.{ℕ, ◌≡◌, ◌≢◌, ◌↔◌, refl, arith, Option, none, length}
use npf.Ifmap.{Ifmap, max_ifmap, stored, ifmap_init, ifmap_lookup, ifmap_register}
use npf.Ifmap.Register.{IsIfmap, ifmap_lookup-ifmap_register}

abbrev ifops_lookup : String → Option ℕ
ifops_lookup name = none

wm0_whole : stored "wm0" ≡ "wm0"
unfolding stored
wm0_whole = refl

wm1_whole : stored "wm1" ≡ "wm1"
unfolding stored
wm1_whole = refl

-- A name of more than 15 characters is cut.
long_name_cut : stored "customer-uplink-10" ≡ "customer-uplink"
unfolding stored
long_name_cut = refl

-- After one name.
abbrev one_name : Ifmap
one_name = (ifmap_register ifops_lookup ifmap_init "wm0").1

one_name-IsIfmap : IsIfmap one_name
one_name-IsIfmap =
    (ifmap_lookup-ifmap_register ifops_lookup ifmap_init "wm0" "wm1" (omega arith, omega arith)
      wm0_whole).3

abbrev wm0 : String
wm0 = "wm0"

abbrev wm1 : String
wm1 = "wm1"

ifmap_lookup-ifmap_register_example :
    let r = ifmap_register ifops_lookup one_name wm1 in
    (ifmap_lookup r.1 wm1 ≡ r.0)
    × ((r.0 ≡ 0) ↔ ((ifmap_lookup one_name wm1 ≡ 0) × (length one_name.names ≡ max_ifmap)))
    × (wm1 ≢ wm0 → ifmap_lookup r.1 wm0 ≡ ifmap_lookup one_name wm0)
    × IsIfmap r.1
ifmap_lookup-ifmap_register_example =
    ifmap_lookup-ifmap_register ifops_lookup one_name wm1 wm0 one_name-IsIfmap wm1_whole
