-- ===== src/Packet/Options.antt =====
-- TCP option scanning of src/kern/npf_inet.c: `npf_fetch_tcpopts`.
pub mod Scan
use npf.Prelude.{
  ℕ, zero, suc, ◌-◌, ◌*◌, Bool, true, false, ◌||◌, List, [], ◌∷◌, Option, none, some, ltb, ◌==◌,
  if◌then◌else◌, get_or, drop,
}

abbrev pub tcpopt_eol : ℕ
tcpopt_eol = 0

abbrev pub tcpopt_nop : ℕ
tcpopt_nop = 1

abbrev pub tcpopt_maxseg : ℕ
tcpopt_maxseg = 2

abbrev pub tcpopt_window : ℕ
tcpopt_window = 3

abbrev pub tcpolen_maxseg : ℕ
tcpolen_maxseg = 4

abbrev pub tcpolen_window : ℕ
tcpolen_window = 3

abbrev pub tcp_max_winshift : ℕ
tcp_max_winshift = 14

-- What the scan has stored through its pointers: `mss` as its two bytes.
pub record Found : Type 0 where
  pub mss : Option (List ℕ)
  pub wscale : ℕ

abbrev pub byte : List ℕ → ℕ → ℕ
byte cp i = get_or cp i 0

-- The length of the option at `cp`, or `none` where the scan breaks off.
unfoldable pub option_len : List ℕ → ℕ → Option ℕ
option_len cp cnt =
    if byte cp 0 == tcpopt_eol
    then none
    else if byte cp 0 == tcpopt_nop
    then some 1
    else if ltb cnt 2
    then none
    else if ltb (byte cp 1) 2 || ltb cnt (byte cp 1)
    then none
    else some (byte cp 1)

-- The `switch` on the option.
unfoldable pub store_option : List ℕ → ℕ → Found → Found
store_option cp optlen f =
    if byte cp 0 == tcpopt_maxseg
    then (if optlen == tcpolen_maxseg
        then record f { mss = some (byte cp 2 ∷ byte cp 3 ∷ []) }
        else f)
    else if byte cp 0 == tcpopt_window
    then (if optlen == tcpolen_window
        then record f {
          wscale = if ltb tcp_max_winshift (byte cp 2) then tcp_max_winshift else byte cp 2;
        }
        else f)
    else f

-- The `for` loop, with fuel; `none` if the fuel runs out.
unfoldable pub scan_options : ℕ → List ℕ → ℕ → Found → Option Found
scan_options zero cp cnt f = none
scan_options (suc fuel) cp cnt f = elim (ltb 0 cnt) [
  | false ↦ some f
  | true ↦ elim (option_len cp cnt) [
    | none ↦ some f
    | some n ↦ scan_options fuel (drop n cp) (cnt - n) (store_option cp n f)
  ]
]

-- `npf_fetch_tcpopts`: the return value, and what is stored. `tcp_opts` is what `nbuf_advance`
-- yields. Without the fuel, which suffices, the result would be the same.
unfoldable pub fetch_tcpopts : ℕ → Option (List ℕ) → Found → Bool × Option Found
fetch_tcpopts th_off tcp_opts f =
    if ltb 20 (th_off * 4)
    then elim tcp_opts [
      | none ↦ (false, some f)
      | some cp ↦ (true, scan_options (suc (th_off * 4 - 20)) cp (th_off * 4 - 20) f)
    ]
    else (false, some f)
