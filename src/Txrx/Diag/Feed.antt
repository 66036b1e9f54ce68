-- ===== src/Txrx/Diag/Feed.antt =====
-- `tx_feeder_thread`: the thread that keeps the TX ring filled for the loopback and PRBS tests.
use zyndra.Base.{
  ℕ, ◌+◌, ◌/◌, ◌%◌, ◌<◌, ◌≡◌, refl, arith, Bool, true, List, [], ◌∷◌, ◌++◌, Option, none, some,
  if◌then◌else◌, add32, add64,
}
use mathlib.Core.Option
use zyndra.Axi.State.{Priv}
use zyndra.Axi.Write.{WriteCall}
use zyndra.Txrx.Driver.{Driver, driver_tx_put_block}
use zyndra.Txrx.Prbs.{prbs_len, PrbsIq, prbs_fill_block}
use zyndra.Txrx.Prbs.Fill.{sequence, prbs_fill_block_lem}

-- The variables of the thread, and the byte count of the statistics.
pub record Feeder : Type 0 where
  pub wr : ℕ
  pub prbs_p : ℕ
  pub bytes : ℕ

-- A block that is stored in the map: its offset and its samples.
pub record Stored : Type 0 where
  pub at : ℕ
  pub samples : List PrbsIq

-- How a run ends: a `driver_tx_put_block` that fails or does not return, or no more calls given.
-- `no_fuel` is that of `prbs_fill_block`.
pub data Fed : Type 0 where
  fed : List Stored → Feeder → Priv → Fed
  no_fuel : Fed

-- `k` is the block size of the kernel driver.
module _ (lut : ℕ → PrbsIq) (k tx_buf_size : ℕ) (prbs : Bool) (d : Driver) where
  -- What a round stores before it advances.
  unfoldable pub refill : Feeder → Option (List Stored × Feeder)
  refill s =
      let filled =
        Option.map
          (λ (r : List PrbsIq × ℕ).
            (record { at = s.wr; samples = r.0 } ∷ [], record s { prbs_p = r.1 }))
          (prbs_fill_block lut (d.block_size / 4) s.prbs_p) in
      if prbs then filled else some ([], s)

  abbrev pub advanced : Feeder → Feeder
  advanced s = record s { wr = add32 s.wr d.block_size % tx_buf_size }

  abbrev pub and_store : List Stored → Fed → Fed
  and_store xs (fed ys s p) = fed (xs ++ ys) s p
  and_store xs no_fuel = no_fuel

  abbrev pub refilled : Option (List Stored × Feeder) → (List Stored × Feeder → Fed) → Fed
  refilled none go = no_fuel
  refilled (some r) go = go r

  -- The loop goes on if the answer is not negative.
  abbrev pub put : Option ℕ → Fed → Fed → Fed
  put none stop rest = stop
  put (some n) stop rest = rest

  unfoldable pub tx_feeder_thread : List WriteCall → Feeder → Priv → Fed
  tx_feeder_thread [] s p = fed [] s p
  tx_feeder_thread (c ∷ cs) s p = refilled (refill s) (λ (r : List Stored × Feeder).
      let s = advanced r.1 in
      let (o, q) = driver_tx_put_block k s.wr c d p in
      and_store r.0 (
        put o (fed [] s q)
          (tx_feeder_thread cs (record s { bytes = add64 s.bytes d.block_size }) q)))

abbrev pub fresh_feeder : Feeder
fresh_feeder = record { wr = 0; prbs_p = 0; bytes = 0 }

module _ (lut : ℕ → PrbsIq) (k tx_buf_size : ℕ) (d : Driver) where
  abbrev pub num : ℕ
  num = d.block_size / 4

  -- Each block lies behind the one before it in the ring, and goes on with the sequence.
  abbrev pub Follows : ℕ → ℕ → List Stored → Type 0
  Follows w q [] = Unit
  Follows w q (x ∷ xs) =
      (x.at ≡ w)
      × (x.samples ≡ sequence lut q (d.block_size / 4))
      × Follows (add32 w d.block_size % tx_buf_size) ((q + d.block_size / 4) % prbs_len) xs

  abbrev pub all_samples : List Stored → List PrbsIq
  all_samples [] = []
  all_samples (x ∷ xs) = x.samples ++ all_samples xs

  -- The blocks of a run that starts with these variables.
  abbrev pub FillsRing : ℕ → ℕ → Fed → Type 0
  FillsRing w q (fed xs s p) = Follows w q xs
  FillsRing w q no_fuel = ⊥

  refill-fills :
      (s : Feeder)
      → s.prbs_p < prbs_len
      → refill lut k tx_buf_size true d s
        ≡ some (
          record { at = s.wr; samples = sequence lut s.prbs_p (d.block_size / 4) } ∷ [],
          record s { prbs_p = (s.prbs_p + d.block_size / 4) % prbs_len },
        )
  unfolding refill
  refill-fills s h = rw (prbs_fill_block_lem lut (d.block_size / 4) s.prbs_p h) refl

  FillsRing-cons :
      (w q : ℕ) (f : Fed)
      → FillsRing (add32 w d.block_size % tx_buf_size) ((q + d.block_size / 4) % prbs_len) f
      → FillsRing w q (
          and_store lut k tx_buf_size true d
            (record { at = w; samples = sequence lut q (d.block_size / 4) } ∷ [])
            f)
  FillsRing-cons w q (fed xs s p) h = (refl, refl, h)
  FillsRing-cons w q no_fuel h = h

  FillsRing-put :
      (w q : ℕ) (o : Option ℕ) (stop rest : Fed)
      → FillsRing w q stop
      → FillsRing w q rest
      → FillsRing w q (put lut k tx_buf_size true d o stop rest)
  FillsRing-put w q none stop rest h h' = h
  FillsRing-put w q (some n) stop rest h h' = h'

  -- The feeder of the PRBS test never stalls: it stores one block per round, each behind the one
  -- before it in the ring, round its end, and all of them together carry the sequence without a
  -- gap.
  pub tx_feeder_thread-FillsRing :
      (cs : List WriteCall) (s : Feeder) (p : Priv)
      → s.prbs_p < prbs_len
      → FillsRing s.wr s.prbs_p (tx_feeder_thread lut k tx_buf_size true d cs s p)
  unfolding tx_feeder_thread
  tx_feeder_thread-FillsRing [] s p h = tt
  tx_feeder_thread-FillsRing (c ∷ cs) s p h =
      let s' =
        advanced lut k tx_buf_size true d
          (record s { prbs_p = (s.prbs_p + d.block_size / 4) % prbs_len }) in
      let (o, q) = driver_tx_put_block k s'.wr c d p in
      let next = record s' { bytes = add64 s'.bytes d.block_size } in
      let rest = tx_feeder_thread lut k tx_buf_size true d cs next q in
      rw (refill-fills s h) (
        FillsRing-cons s.wr s.prbs_p (put lut k tx_buf_size true d o (fed [] s' q) rest) (
          FillsRing-put s'.wr s'.prbs_p o (fed [] s' q) rest tt
            (tx_feeder_thread-FillsRing cs next q (omega arith))))
