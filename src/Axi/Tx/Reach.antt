-- ===== src/Axi/Tx/Reach.antt =====
-- What a successful `write` does to the FPGA's register and memory.
use zyndra.Base.{
  ℕ, ◌+◌, ◌^◌, ◌≤◌, ◌<◌, ◌≡◌, refl, ap, ◌∙◌, arith, List, [], ◌∷◌, ltb, if◌then◌else◌, All,
}
use zyndra.Ring.{ringbuf_used}
use zyndra.Axi.State.{Priv, writel, tx_buf_wr, ret}
use zyndra.Axi.Timer.{timer, accept_blocks}
use zyndra.Axi.Read.{ReadCall, read, deliver, check_overrun, skip_overrun, take_block, advance_rd}
use zyndra.Axi.Control.{enable_fpga}
use zyndra.Axi.Write.{WriteCall, sizeof_tx_write, flush_ranges, flush, publish, write}
use zyndra.Axi.Tx.Flush.{in_ranges, flush_ranges_inside, in_ranges-flush_ranges}
use zyndra.Axi.Tx.Play.{Fpga, reaches, reach_all, fpga_after}

-- The calls of a `write` that succeeds.
write-effects :
    (b : ℕ) (c : WriteCall) (p : Priv)
    → (write b c p).0 ≡ ret sizeof_tx_write
    → (write b c (record p { effects = [] })).1.effects
      ≡ writel tx_buf_wr c.wr ∷ flush p.txbuf_phys (flush_ranges p.txbuf_size p.tx_wr_ptr c.wr) []
unfolding write publish
write-effects b c p done = ground arith

-- A flushed offset gets what the map holds.
flush-memory :
    (phys size : ℕ) (map : ℕ → ℕ) (h : Fpga) (rs : List (ℕ × ℕ)) (x : ℕ)
    → phys + size < 2 ^ 32
    → All (λ (r : ℕ × ℕ). r.0 + r.1 ≤ size) rs
    → (reach_all phys map (flush phys rs []) h).memory x
      ≡ (if in_ranges x rs then map x else h.memory x)
unfolding flush reaches reach_all
flush-memory phys size map h [] x fits inside = refl
flush-memory phys size map h ((off, len) ∷ rs) x fits inside =
    ground (arith, flush-memory phys size map h rs x fits inside.1)

module _ (b : ℕ) (c : WriteCall) (map : ℕ → ℕ) (p : Priv) (h : Fpga) where
  pub fpga_after-register :
      (write b c p).0 ≡ ret sizeof_tx_write → (fpga_after b c map p h).register ≡ c.wr
  unfolding reaches reach_all
  fpga_after-register done = rw (write-effects b c p done) refl

  pub fpga_after-memory :
      (write b c p).0 ≡ ret sizeof_tx_write
      → p.txbuf_phys + p.txbuf_size < 2 ^ 32
      → p.tx_wr_ptr < p.txbuf_size
      → c.wr < p.txbuf_size
      → (x : ℕ) → x < p.txbuf_size
      → (fpga_after b c map p h).memory x ≡ (
          if ltb
            (ringbuf_used p.tx_wr_ptr x p.txbuf_size)
            (ringbuf_used p.tx_wr_ptr c.wr p.txbuf_size)
          then map x
          else h.memory x)
  unfolding reaches reach_all
  fpga_after-memory done fits old_in wr_in x x_in = rw (write-effects b c p done) (
      flush-memory p.txbuf_phys p.txbuf_size map h (flush_ranges p.txbuf_size p.tx_wr_ptr c.wr) x
        fits
        (flush_ranges_inside p.txbuf_size p.tx_wr_ptr c.wr old_in wr_in (omega (arith, fits))).0
      ∙ ap (λ t. if t then map x else h.memory x)
          (in_ranges-flush_ranges p.txbuf_size p.tx_wr_ptr c.wr old_in wr_in (omega (arith, fits)) x
            x_in))

-- What a program that transmits relies on is left alone by the callbacks and the reads.
abbrev pub SameRing : Priv → Priv → Type 0
SameRing p q =
    (q.txbuf_size ≡ p.txbuf_size) × (q.txbuf_phys ≡ p.txbuf_phys) × (q.tx_wr_ptr ≡ p.tx_wr_ptr)

pub timer-SameRing : (b wr : ℕ) (p : Priv) → SameRing p (timer b wr p)
unfolding timer accept_blocks
timer-SameRing b wr p = ground arith

pub read-SameRing : (b : ℕ) (c : ReadCall) (p : Priv) → SameRing p (read b c p).1
unfolding read deliver check_overrun skip_overrun take_block advance_rd
read-SameRing b c p = ground arith

pub enable_fpga-SameRing : (p : Priv) → SameRing p (enable_fpga p)
unfolding enable_fpga
enable_fpga-SameRing p = (refl, refl, refl)

-- What a `write` that succeeds leaves, and its new pointer.
pub published-priv :
    (b : ℕ) (c : WriteCall) (p : Priv)
    → (write b c p).0 ≡ ret sizeof_tx_write
    → ((write b c p).1.txbuf_size ≡ p.txbuf_size)
      × ((write b c p).1.txbuf_phys ≡ p.txbuf_phys)
      × ((write b c p).1.tx_wr_ptr ≡ c.wr)
unfolding write publish
published-priv b c p done = ground arith
