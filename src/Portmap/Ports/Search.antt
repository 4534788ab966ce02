-- ===== src/Portmap/Ports/Search.antt =====
-- The search for a free port: it ends, and what it finds.
use npf.Prelude.{
  ℕ, zero, suc, ◌+◌, ◌*◌, ◌%◌, ◌≤◌, ◌<◌, ◌≡◌, ◌⊎◌, refl, ap, sym, ◌∙◌, arith, Bool, true, false,
  some, ◌==◌, if◌then◌else◌, Bool-cases, inl, inr, subst, ==-refl,
}
use native.Mathlib.Nat.{mod-add-mod, mod-lt, mod-eq_of_lt}
use npf.Portmap.Bitmap.{Bitmap, bitmap_set}
use npf.Portmap.Ports.{find_port}

-- The port that is tried after `j` failures, for a search that starts `t` above the least port.
abbrev probe : ℕ → ℕ → ℕ → ℕ → ℕ
probe min_port delta t j = min_port + (t + j * (min_port + 1)) % delta

probe_next :
    (min_port delta t j : ℕ)
    → min_port + (probe min_port delta t j + 1) % delta ≡ probe min_port delta t (suc j)
probe_next min_port delta t j =
    let a = t + j * (min_port + 1) in
    ap (λ (x : ℕ). min_port + x % delta) {x = probe min_port delta t j + 1}
      {y = a % delta + (min_port + 1)} (omega arith)
    ∙ (ap (λ (x : ℕ). min_port + x) (mod-add-mod a delta (min_port + 1))
        ∙ ap (λ (x : ℕ). min_port + x % delta) {y = t + suc j * (min_port + 1)} (omega arith))

mod_of_turns : (d t k : ℕ) → t < d → (t + d * k) % d ≡ t
mod_of_turns d t k h = grind arith

-- After as many failures as there are ports the search is back where it began.
probe_wraps : (min_port delta t : ℕ) → t < delta → probe min_port delta t delta ≡ min_port + t
probe_wraps min_port delta t h =
    ap (λ (x : ℕ). min_port + x) (mod_of_turns delta t (min_port + 1) h)

-- What a search may answer: no port, or one in the range.
abbrev pub IsAnswer : ℕ → ℕ → ℕ × Bitmap → Type 0
IsAnswer min_port delta r = (r.0 ≡ 0) ⊎ ((min_port ≤ r.0) × (r.0 < min_port + delta))

not_last :
    (n j min_port delta t : ℕ)
    → j + suc n ≡ delta
    → t < delta
    → (min_port + t == min_port + (probe min_port delta t j + 1) % delta) ≡ false
    → 0 < n
not_last zero j min_port delta t e l on =
    let wrapped =
      probe_next min_port delta t j
      ∙ (ap (probe min_port delta t) {x = suc j} {y = delta} (omega arith)
          ∙ probe_wraps min_port delta t l) in
    absurd (ground arith)
not_last (suc n) j min_port delta t e l on = omega arith

turned : (p d t : ℕ) → t < d → (p + 1) % d ≡ 0 → (p + t + 1) % d ≡ t
turned p d t h z =
    ap (λ (x : ℕ). x % d) {x = p + t + 1} {y = p + 1 + t} (omega arith)
    ∙ (sym (mod-add-mod (p + 1) d t) ∙ (ap (λ (x : ℕ). (x + t) % d) z ∙ mod_of_turns' d t h))
  where
    mod_of_turns' : (d t : ℕ) → t < d → (0 + t) % d ≡ t
    mod_of_turns' d t q = grind arith

find_taken :
    (n min_port delta : ℕ) (memory : Bool) (bm : Bitmap) (target bit : ℕ)
    → (bitmap_set memory bm bit).0 ≡ true
    → find_port (suc n) min_port delta memory bm target bit
      ≡ some (bit, (bitmap_set memory bm bit).1)
unfolding find_port
find_taken n min_port delta memory bm target bit e = ground arith

find_failed :
    (n min_port delta : ℕ) (memory : Bool) (bm : Bitmap) (target bit : ℕ)
    → (bitmap_set memory bm bit).0 ≡ false
    → find_port (suc n) min_port delta memory bm target bit ≡ (
        if target == min_port + (bit + 1) % delta
        then some (0, (bitmap_set memory bm bit).1)
        else find_port n min_port delta memory
            (bitmap_set memory bm bit).1
            target
            (min_port + (bit + 1) % delta))
unfolding find_port
find_failed n min_port delta memory bm target bit e = rw (e, find_port)

search_from :
    (tries j min_port delta t : ℕ) (memory : Bool) (bm : Bitmap)
    → 0 < tries
    → j + tries ≡ delta
    → t < delta
    → (r : ℕ × Bitmap) × (find_port tries min_port delta memory bm
          (min_port + t)
          (probe min_port delta t j)
        ≡ some r)
      × IsAnswer min_port delta r
search_from zero j min_port delta t memory bm h e l = absurd (omega arith)
search_from (suc n) j min_port delta t memory bm h e l =
    let bit = probe min_port delta t j in
    let bm' = (bitmap_set memory bm bit).1 in
    elim (Bool-cases (bitmap_set memory bm bit).0) [
      | inl done ↦ (
        (bit, bm'),
        find_taken n min_port delta memory bm (min_port + t) bit done,
        inr (omega arith, omega (arith, mod-lt (t + j * (min_port + 1)) {m = delta} (omega arith))),
      )
      | inr fail ↦
          let failed = find_failed n min_port delta memory bm (min_port + t) bit fail in
          let next = probe_next min_port delta t j in
          elim (Bool-cases (min_port + t == min_port + (bit + 1) % delta)) [
            | inl back ↦ ((0, bm'), failed ∙ rw back, inl refl)
            | inr on ↦
                let more : 0 < n = not_last n j min_port delta t e l on in
                let (r, found, answer) =
                  search_from n (suc j) min_port delta t memory bm' more (omega arith) l in
                (r, failed ∙ (rw on (rw next found)), answer)
          ]
    ]

-- A search that starts in the range, with as many tries as there are ports, ends, and answers with
-- 0 or a port in the range.
pub find_port_total :
    (min_port delta t : ℕ) (memory : Bool) (bm : Bitmap)
    → t < delta
    → (r : ℕ × Bitmap) × (find_port delta min_port delta memory bm (min_port + t) (min_port + t)
        ≡ some r)
      × IsAnswer min_port delta r
find_port_total min_port delta t memory bm h =
    let start : probe min_port delta t 0 ≡ min_port + t =
      ap (λ (x : ℕ). min_port + x)
        (ap (λ (x : ℕ). x % delta) {y = t} (omega arith) ∙ mod-eq_of_lt h) in
    let (r, e, a) = search_from delta 0 min_port delta t memory bm (omega arith) (omega arith) h in
    (r, subst (λ b. find_port delta min_port delta memory bm (min_port + t) b ≡ some r) start e, a)

-- Where the number of ports divides the least port plus one, a search whose first port cannot be
-- taken fails at once, whatever other ports are free.
pub find_port_stuck :
    (min_port delta t : ℕ) (memory : Bool) (bm : Bitmap)
    → t < delta
    → (min_port + 1) % delta ≡ 0
    → (bitmap_set memory bm (min_port + t)).0 ≡ false
    → find_port delta min_port delta memory bm (min_port + t) (min_port + t)
      ≡ some (0, (bitmap_set memory bm (min_port + t)).1)
find_port_stuck min_port zero t memory bm h d f = absurd (omega arith)
find_port_stuck min_port (suc n) t memory bm h d f =
    find_failed n min_port (suc n) memory bm (min_port + t) (min_port + t) f
    ∙ rw (same, ==-refl (min_port + t))
  where
    same : min_port + (min_port + t + 1) % suc n ≡ min_port + t
    same = ap (λ (x : ℕ). min_port + x) (turned min_port (suc n) t h d)
