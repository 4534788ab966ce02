-- ===== src/Packet/Options/Scan.antt =====
-- The scan of the TCP options ends, and bounds the window scale.
use npf.Prelude.{
  ℕ, zero, suc, ◌-◌, ◌*◌, ◌≤◌, ◌<◌, ◌≡◌, List, Option, some, arith, Option-cases, Bool-cases, inl,
  inr, ltb, drop,
}
use npf.Packet.Options.{
  Found, option_len, store_option, scan_options, fetch_tcpopts, tcp_max_winshift,
}

-- An option that the scan does not stop at has between 1 and `cnt` bytes.
pub option_len_bounds :
    (cp : List ℕ) (cnt n : ℕ) → 0 < cnt → option_len cp cnt ≡ some n → (0 < n) × (n ≤ cnt)
unfolding option_len
option_len_bounds cp cnt n h e = ground arith

store_option-wscale :
    (cp : List ℕ) (n : ℕ) (f : Found)
    → f.wscale ≤ tcp_max_winshift
    → (store_option cp n f).wscale ≤ tcp_max_winshift
unfolding store_option
store_option-wscale cp n f h = ground arith

-- What a finished scan stores: the scan ends, with a bounded window scale.
pub scan_options_lem :
    (fuel : ℕ) (cp : List ℕ) (cnt : ℕ) (f : Found)
    → cnt < fuel
    → f.wscale ≤ tcp_max_winshift
    → (r : Found) × (scan_options fuel cp cnt f ≡ some r) × (r.wscale ≤ tcp_max_winshift)
unfolding scan_options
scan_options_lem zero cp cnt f h w = absurd (omega arith)
scan_options_lem (suc fuel) cp cnt f h w = elim (Bool-cases (ltb 0 cnt)) [
  | inr e ↦ (f, ground arith, w)
  | inl e ↦ elim (Option-cases (option_len cp cnt)) [
    | inl stop ↦ (f, ground arith, w)
    | inr (n, go) ↦
        let b = option_len_bounds cp cnt n (ground arith) go in
        let (r, e1, e2) =
          scan_options_lem fuel (drop n cp) (cnt - n) (store_option cp n f) (omega arith)
            (store_option-wscale cp n f w) in
        (r, ground arith, e2)
  ]
]

-- `npf_fetch_tcpopts` always returns, and leaves a window scale of at most 14 if it was given one.
pub fetch_tcpopts-wscale :
    (th_off : ℕ) (opts : Option (List ℕ)) (f : Found)
    → f.wscale ≤ tcp_max_winshift
    → (r : Found) × ((fetch_tcpopts th_off opts f).1 ≡ some r) × (r.wscale ≤ tcp_max_winshift)
unfolding fetch_tcpopts
fetch_tcpopts-wscale th_off opts f w = elim (Option-cases opts) [
  | inl e ↦ (f, ground arith, w)
  | inr (cp, e) ↦ elim (Bool-cases (ltb 20 (th_off * 4))) [
    | inr short ↦ (f, ground arith, w)
    | inl long ↦
        let (r, e1, e2) =
          scan_options_lem (suc (th_off * 4 - 20)) cp (th_off * 4 - 20) f (omega arith) w in
        (r, ground arith, e2)
  ]
]
