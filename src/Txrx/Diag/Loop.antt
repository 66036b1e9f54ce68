-- ===== src/Txrx/Diag/Loop.antt =====
-- The PRBS test as a whole: what the feeder thread stores, brought back block by block, is what the
-- main loop of `diag_prbs` expects.
use zyndra.Base.{
  ℕ, zero, suc, add32, ◌+◌, ◌/◌, ◌%◌, ◌<◌, ◌≡◌, ap, ◌∙◌, subst, arith, true, List, [], ◌∷◌, All,
}
use zyndra.Axi.State.{Priv}
use zyndra.Axi.Write.{WriteCall}
use zyndra.Txrx.Driver.{Driver}
use zyndra.Txrx.Prbs.{prbs_len, PrbsIq, Luts, prbs_init}
use zyndra.Txrx.Prbs.Fill.{sequence}
use zyndra.Txrx.Diag.{Got, prbs_start, prbs_run}
use zyndra.Txrx.Diag.Clean.{IsQuiet, InSequence, IsClean, end_of, prbs_run-IsClean}
use zyndra.Txrx.Diag.Feed.{
  Feeder, Stored, fed, tx_feeder_thread, Follows, FillsRing, tx_feeder_thread-FillsRing,
}

-- The first samples of a block.
abbrev pub listed : (ℕ → PrbsIq) → ℕ → List PrbsIq
listed f zero = []
listed f (suc n) = f 0 ∷ listed (λ k. f (k + 1)) n

-- Each block received holds the samples of the block stored, in order and none missing.
abbrev pub Delivered : ℕ → List Stored → List Got → Type 0
Delivered n [] [] = Unit
Delivered n [] (g ∷ gs) = ⊥
Delivered n (x ∷ xs) [] = ⊥
Delivered n (x ∷ xs) (g ∷ gs) = (listed g.block n ≡ x.samples) × Delivered n xs gs

heads : {A : Type 0} {x y : A} {xs ys : List A} → x ∷ xs ≡ y ∷ ys → x ≡ y
heads e = cc

tails : {A : Type 0} {x y : A} {xs ys : List A} → x ∷ xs ≡ y ∷ ys → xs ≡ ys
tails e = cc

listed-at :
    (lut f : ℕ → PrbsIq) (q n k : ℕ)
    → listed f n ≡ sequence lut q n
    → k < n
    → f k ≡ lut ((q + k) % prbs_len)
listed-at lut f q zero k e h = absurd (omega arith)
listed-at lut f q (suc n) zero e h = heads e ∙ ap lut (omega arith)
listed-at lut f q (suc n) (suc k) e h =
    ap f (omega arith)
    ∙ listed-at lut (λ j. f (j + 1)) (q + 1) n k (tails e) (omega arith)
    ∙ ap lut (omega arith)

module _ (t₀ : Luts) (k tx_buf_size rx_buf_size : ℕ) (d : Driver) where
  Delivered-InSequence :
      (w q : ℕ) (xs : List Stored) (gs : List Got)
      → Follows (prbs_init t₀).lut k tx_buf_size d w q xs
      → Delivered (d.block_size / 4) xs gs
      → InSequence t₀ d.block_size rx_buf_size q gs
  Delivered-InSequence w q [] [] f h = tt
  Delivered-InSequence w q [] (g ∷ gs) f h = absurd h
  Delivered-InSequence w q (x ∷ xs) [] f h = absurd h
  Delivered-InSequence w q (x ∷ xs) (g ∷ gs) f h = (
    λ j lt. listed-at (prbs_init t₀).lut g.block q (d.block_size / 4) j (h.0 ∙ f.1) lt,
    Delivered-InSequence (add32 w d.block_size % tx_buf_size) ((q + d.block_size / 4) % prbs_len) xs
        gs f.2 h.1,
  )

  -- From a position in the table and with blocks of at least one sample: whatever the calls of the
  -- feeder answer, when every block that it has stored, at least one, is received once and in
  -- order, by a receiver that knows nothing of the position, no error is counted or printed.
  pub prbs_loop-IsClean :
      (cs : List WriteCall) (s s' : Feeder) (p p' : Priv) (xs : List Stored) (g : Got)
      (gs : List Got)
      → s.prbs_p < prbs_len
      → 0 < d.block_size / 4
      → tx_feeder_thread (prbs_init t₀).lut k tx_buf_size true d cs s p ≡ fed xs s' p'
      → Delivered (d.block_size / 4) xs (g ∷ gs)
      → let r = prbs_run (prbs_init t₀) d.block_size rx_buf_size (g ∷ gs) prbs_start in
        (r.0.errors ≡ 0) × (r.0.total_errors ≡ 0) × All IsQuiet r.1
  prbs_loop-IsClean cs s s' p p' xs g gs h pos run back = (clean.0.now, clean.0.all, clean.1)
    where
      stored : Follows (prbs_init t₀).lut k tx_buf_size d s.wr s.prbs_p xs
      stored =
          subst (FillsRing (prbs_init t₀).lut k tx_buf_size d s.wr s.prbs_p) run
            (tx_feeder_thread-FillsRing (prbs_init t₀).lut k tx_buf_size d cs s p h)

      clean :
          IsClean t₀ d.block_size rx_buf_size
            (end_of t₀ d.block_size rx_buf_size s.prbs_p (g ∷ gs))
            (prbs_run (prbs_init t₀) d.block_size rx_buf_size (g ∷ gs) prbs_start).0
          × All IsQuiet (prbs_run (prbs_init t₀) d.block_size rx_buf_size (g ∷ gs) prbs_start).1
      clean =
          prbs_run-IsClean t₀ d.block_size rx_buf_size s.prbs_p g gs h pos
            (Delivered-InSequence s.wr s.prbs_p xs (g ∷ gs) stored back)
