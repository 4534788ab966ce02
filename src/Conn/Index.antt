-- ===== src/Conn/Index.antt =====
-- The map as an index of the connections: which directions of which connections it holds, and under
-- which keys.
use npf.Prelude.{
  ℕ, ◌≡◌, ◌≢◌, refl, sym, ap, ◌∙◌, arith, Bool, true, false, Bool-cases, inl, inr, List, Option,
  none, some, ◌==◌, ==→eq, ==-refl, if◌then◌else◌, &&-left, &&-right,
}
use native.Mathlib.Decide.{ℕ_discrete}
use npf.Packet.{Flow, forw, back}
use npf.Thmap.{Thmap}
use npf.Conn.{same_flow}
use npf.Conn.Db.{same_val}

unfoldable pub words_eq : Discrete (List ℕ)
words_eq = hlevel (ℕ_discrete)

same_flow-eq : (f g : Flow) → same_flow f g ≡ true → f ≡ g
same_flow-eq forw forw e = refl
same_flow-eq back back e = refl
same_flow-eq forw back e = cc
same_flow-eq back forw e = cc

pub same_flow_refl : (f : Flow) → same_flow f f ≡ true
same_flow_refl forw = refl
same_flow_refl back = refl

pub same_val-eq : (c d : ℕ) (f g : Flow) → same_val (c, f) (d, g) ≡ true → (c ≡ d) × (f ≡ g)
same_val-eq c d f g e = (==→eq c d (&&-left (c == d) _ e), same_flow-eq f g (&&-right (c == d) _ e))

pub same_val_refl : (c : ℕ) (f : Flow) → same_val (c, f) (c, f) ≡ true
same_val_refl c f = rw (==-refl c, same_flow_refl f)

-- A value of the map.
abbrev pub tagged : ℕ → Flow → Option (ℕ × Flow)
tagged c f = some (c, f)

pub some_pair : (c d : ℕ) (f g : Flow) → tagged c f ≡ tagged d g → (c ≡ d) × (f ≡ g)
some_pair c d f g e = (cc, cc)

-- What the map holds after a slot is filled or emptied.
abbrev pub with_slot : (ℕ → Flow → Bool) → ℕ → Flow → Bool → ℕ → Flow → Bool
with_slot slots c f b d g = if same_val (c, f) (d, g) then b else slots d g

module _ (maps : Thmap (List ℕ) (ℕ × Flow)) where
  -- The entries of the map are the filled slots, each under its key.
  pub record IsIndex (m : maps.Map) (slots : ℕ → Flow → Bool) (keys : ℕ → Flow → List ℕ)
      : Type 0 where
    pub entry :
        (k : List ℕ) (c : ℕ) (f : Flow)
        → maps.get m k ≡ some (c, f)
        → (slots c f ≡ true) × (keys c f ≡ k)
    pub slot : (c : ℕ) (f : Flow) → slots c f ≡ true → maps.get m (keys c f) ≡ some (c, f)

  module _ (m : maps.Map) (slots : ℕ → Flow → Bool) (keys : ℕ → Flow → List ℕ) (c : ℕ)
      (f : Flow) where
    put_entry :
        (k : List ℕ) (d : ℕ) (g : Flow)
        → IsIndex m slots keys
        → maps.get m (keys c f) ≡ none
        → maps.get (maps.put m (keys c f) (c, f)).0 k ≡ some (d, g)
        → (with_slot slots c f true d g ≡ true) × (keys d g ≡ k)
    put_entry k d g i free h = elim (words_eq (keys c f) k) [
      | yes e ↦
          let here = maps.get-put m (keys c f) (c, f) free in
          let moved : tagged c f ≡ tagged d g =
            sym here ∙ (ap (λ x. maps.get (maps.put m (keys c f) (c, f)).0 x) e ∙ h) in
          let same = some_pair c d f g moved in
          (rw (sym same.0, sym same.1, same_val_refl c f), rw (sym same.0, sym same.1) e)
      | no ne ↦
          let old = i.entry k d g (sym (maps.get-put_ne m (keys c f) k (c, f) ne) ∙ h) in
          (ground (arith, old.0), old.1)
    ]

    put_slot :
        (d : ℕ) (g : Flow)
        → IsIndex m slots keys
        → maps.get m (keys c f) ≡ none
        → with_slot slots c f true d g ≡ true
        → maps.get (maps.put m (keys c f) (c, f)).0 (keys d g) ≡ some (d, g)
    put_slot d g i free h = elim (Bool-cases (same_val (c, f) (d, g))) [
      | inl same ↦
          let e = same_val-eq c d f g same in
          rw (sym e.0, sym e.1) (maps.get-put m (keys c f) (c, f) free)
      | inr other ↦
          let old = i.slot d g (rw other at h) in
          maps.get-put_ne m (keys c f) (keys d g) (c, f)
            (λ e. cc (sym free ∙ (ap (λ x. maps.get m x) e ∙ old)))
          ∙ old
    ]

    -- A free key can be taken.
    pub IsIndex-put :
        IsIndex m slots keys
        → maps.get m (keys c f) ≡ none
        → IsIndex (maps.put m (keys c f) (c, f)).0 (with_slot slots c f true) keys
    IsIndex-put i free = record {
      entry = λ k d g h. put_entry k d g i free h;
      slot = λ d g h. put_slot d g i free h;
    }

    del_entry :
        (k : List ℕ) (d : ℕ) (g : Flow)
        → IsIndex m slots keys
        → maps.get (maps.del m (keys c f)).0 k ≡ some (d, g)
        → (with_slot slots c f false d g ≡ true) × (keys d g ≡ k)
    del_entry k d g i h = elim (words_eq (keys c f) k) [
      | yes e ↦
          let gone = maps.get-del m (keys c f) in
          cc (sym gone ∙ (ap (λ x. maps.get (maps.del m (keys c f)).0 x) e ∙ h))
      | no ne ↦
          let old = i.entry k d g (sym (maps.get-del_ne m (keys c f) k ne) ∙ h) in
          elim (Bool-cases (same_val (c, f) (d, g))) [
            | inl same ↦
                let e = same_val-eq c d f g same in
                absurd (ne (ap (λ x. keys x f) e.0 ∙ (ap (λ x. keys d x) e.1 ∙ old.1)))
            | inr other ↦ (rw other old.0, old.1)
          ]
    ]

    del_slot :
        (d : ℕ) (g : Flow)
        → IsIndex m slots keys
        → slots c f ≡ true
        → with_slot slots c f false d g ≡ true
        → maps.get (maps.del m (keys c f)).0 (keys d g) ≡ some (d, g)
    del_slot d g i filled h = elim (Bool-cases (same_val (c, f) (d, g))) [
      | inl same ↦ cc (rw same at h)
      | inr other ↦
          let old = i.slot d g (rw other at h) in
          let mine = i.slot c f filled in
          let apart : keys c f ≢ keys d g = λ e.
            let same = some_pair c d f g (sym mine ∙ (ap (λ x. maps.get m x) e ∙ old)) in
            let alike : same_val (c, f) (d, g) ≡ true =
              rw (sym same.0, sym same.1) (same_val_refl c f) in
            cc (sym other ∙ alike) in
          maps.get-del_ne m (keys c f) (keys d g) apart ∙ old
    ]

    -- A filled slot can be emptied.
    pub IsIndex-del :
        IsIndex m slots keys
        → slots c f ≡ true
        → IsIndex (maps.del m (keys c f)).0 (with_slot slots c f false) keys
    IsIndex-del i filled = record {
      entry = λ k d g h. del_entry k d g i h;
      slot = λ d g h. del_slot d g i filled h;
    }

  -- Only the filled slots and their keys matter.
  pub IsIndex-same :
      (m : maps.Map) (slots slots' : ℕ → Flow → Bool) (keys keys' : ℕ → Flow → List ℕ)
      → IsIndex m slots keys
      → ((c : ℕ) (f : Flow) → slots' c f ≡ slots c f)
      → ((c : ℕ) (f : Flow) → slots c f ≡ true → keys' c f ≡ keys c f)
      → IsIndex m slots' keys'
  IsIndex-same m slots slots' keys keys' i same kept = record {
    entry = λ k c f h. let old = i.entry k c f h in (same c f ∙ old.0, kept c f old.0 ∙ old.1);
    slot = λ c f h.
        let filled = sym (same c f) ∙ h in
        ap (λ x. maps.get m x) (kept c f filled) ∙ i.slot c f filled;
  }
