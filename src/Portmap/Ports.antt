-- ===== src/Portmap/Ports.antt =====
-- The operations of src/kern/npf_portmap.c on addresses. Ports are in host order. The map from
-- addresses to bitmaps is the thmap library's; a pointer to a bitmap is a number, and `bitmaps` is the
-- memory that it points into.
pub mod Search
use npf.Prelude.{
  ℕ, zero, suc, ◌+◌, ◌-◌, ◌%◌, Bool, true, false, ◌||◌, List, [], ◌∷◌, Option, none, some, ltb,
  ◌==◌, if◌then◌else◌, replicate, update,
}
use npf.Thmap.{Thmap}
use npf.Portmap.Bitmap.{Bitmap, l0_words, values, bitmap_set, bitmap_clr}

abbrev pub empty_bitmap : Bitmap
empty_bitmap = replicate l0_words (values 0)

-- The loop of `npf_portmap_get` from `bit` on; `tries` is the fuel, and `none` means that it ran
-- out. The port 0 stands for a failure.
unfoldable pub find_port : ℕ → ℕ → ℕ → Bool → Bitmap → ℕ → ℕ → Option (ℕ × Bitmap)
find_port zero min_port delta memory bm target bit = none
find_port (suc tries) min_port delta memory bm target bit = elim (bitmap_set memory bm bit).0 [
  | true ↦ some (bit, (bitmap_set memory bm bit).1)
  | false ↦
      let next = min_port + (bit + 1) % delta in
      let bm' = (bitmap_set memory bm bit).1 in
      let rest = find_port tries min_port delta memory bm' target next in
      if target == next then some (0, bm') else rest
]

module _ (maps : Thmap (List ℕ) ℕ) where
  -- `npf_portmap_t`, with the memory of the bitmaps and the next free place in it.
  pub record Portmap : Type 0 where
    pub addr_map : maps.Map
    pub bitmap_list : List (List ℕ × ℕ)
    pub min_port : ℕ
    pub max_port : ℕ
    pub bitmaps : ℕ → Bitmap
    pub next : ℕ

  -- `npf_portmap_create`
  unfoldable pub portmap_create : (ℕ → Bitmap) → ℕ → ℕ → ℕ → Portmap
  portmap_create bitmaps next min_port max_port = record {
    addr_map = maps.empty;
    bitmap_list = [];
    min_port = min_port;
    max_port = max_port;
    bitmaps = bitmaps;
    next = next;
  }

  -- `npf_portmap_autoget`, run by one thread: the pointer to the bitmap of the address, if there is
  -- one or it can be allocated.
  unfoldable pub portmap_autoget : Bool → Portmap → List ℕ → Option ℕ × Portmap
  portmap_autoget memory pm addr = elim (maps.get pm.addr_map addr) [
    | some bm ↦ (some bm, pm)
    | none ↦
        if memory
        then (
          some pm.next,
          record pm {
            addr_map = (maps.put pm.addr_map addr pm.next).0;
            bitmap_list = (addr, pm.next) ∷ pm.bitmap_list;
            bitmaps = update pm.bitmaps pm.next empty_bitmap;
            next = pm.next + 1;
          },
        )
        else (none, pm)
  ]

  -- `npf_portmap_get`; `random` is what `cprng_fast32` returns.
  unfoldable pub portmap_get : Bool → ℕ → Portmap → List ℕ → Option (ℕ × Portmap)
  portmap_get memory random pm addr =
      let delta = pm.max_port - pm.min_port + 1 in
      if ltb pm.max_port pm.min_port
      then some (0, pm)
      else (let got = portmap_autoget memory pm addr in
          elim got.0 [
            | none ↦ some (0, got.1)
            | some p ↦
                let target = pm.min_port + random % delta in
                elim (find_port delta pm.min_port delta memory (got.1.bitmaps p) target target) [
                  | none ↦ none
                  | some (port, bm) ↦
                      some (port, record (got.1) { bitmaps = update got.1.bitmaps p bm })
                ]
          ])

  -- `npf_portmap_take`
  unfoldable pub portmap_take : Bool → Portmap → List ℕ → ℕ → Bool × Portmap
  portmap_take memory pm addr port =
      let got = portmap_autoget memory pm addr in
      elim got.0 [
        | none ↦ (false, got.1)
        | some p ↦
            if ltb port pm.min_port || ltb pm.max_port port
            then (false, got.1)
            else (let done = bitmap_set memory (got.1.bitmaps p) port in
                (done.0, record (got.1) { bitmaps = update got.1.bitmaps p done.1 }))
      ]

  -- `npf_portmap_put`
  unfoldable pub portmap_put : Bool → Portmap → List ℕ → ℕ → Portmap
  portmap_put memory pm addr port =
      let got = portmap_autoget memory pm addr in
      elim got.0 [
        | none ↦ got.1
        | some p ↦ record (got.1) {
          bitmaps = update got.1.bitmaps p (bitmap_clr (got.1.bitmaps p) port).1;
        }
      ]

  unfoldable pub flush_loop : maps.Map → List (List ℕ × ℕ) → maps.Map
  flush_loop m [] = m
  flush_loop m ((addr, p) ∷ rest) = flush_loop (maps.del m addr).0 rest

  -- `npf_portmap_flush`
  unfoldable pub portmap_flush : Portmap → Portmap
  portmap_flush pm = record pm {
    addr_map = flush_loop pm.addr_map pm.bitmap_list;
    bitmap_list = [];
  }
