-- ===== src/Axi/Api/Ctrl.antt =====
-- When the FPGA runs: the value of its control register over a session.
use zyndra.Base.{
  ℕ, ◌+◌, ◌≡◌, refl, arith, Bool, true, false, List, [], ◌∷◌, ◌⊎◌, inl, ltb, All, if◌then◌else◌,
}
use zyndra.Axi.State.{Priv, Effect, writel, ctrl, ctrl_rx_enable, ctrl_tx_enable, Outcome}
use zyndra.Axi.Timer.{timer, accept_blocks}
use zyndra.Axi.Read.{read, deliver, take_block, advance_rd, check_overrun, skip_overrun}
use zyndra.Axi.Write.{write, publish, flush, flush_ranges}
use zyndra.Axi.Control.{
  open_device, mmap, ioctl, release, get_rx_bufsize, get_blocksize, get_tx_bufsize, enable, other,
}
use zyndra.Axi.Api.{
  Call, open_call, mmap_call, ioctl_call, read_call, write_call, release_call, tick, step,
}

-- The value last written to the control register; 0 before any write.
abbrev pub ctrl_of : List Effect → ℕ
ctrl_of [] = 0
ctrl_of (writel ctrl v ∷ es) = v
ctrl_of (e ∷ es) = ctrl_of es

-- Calls other than `IOCTL_ENABLE`.
abbrev pub starts : Call → Bool
starts (ioctl_call stored enable) = true
starts c = false

ctrl_of-flush :
    (phys : ℕ) (rs : List (ℕ × ℕ)) (es : List Effect) → ctrl_of (flush phys rs es) ≡ ctrl_of es
unfolding flush
ctrl_of-flush phys [] es = refl
ctrl_of-flush phys ((off, len) ∷ rs) es = ctrl_of-flush phys rs es

-- No call but `IOCTL_ENABLE` starts the FPGA: any other leaves the control register as it is, or
-- clears it.
pub step-ctrl :
    (remapped : ℕ → ℕ → Outcome ℕ) (b : ℕ) (c : Call) (p : Priv)
    → starts c ≡ false
    → (ctrl_of (step remapped b c p).effects ≡ ctrl_of p.effects)
      ⊎ (ctrl_of (step remapped b c p).effects ≡ 0)
unfolding step open_device mmap ioctl read deliver take_block advance_rd check_overrun skip_overrun
    write publish release timer accept_blocks
step-ctrl remapped b (open_call hw_wr now) p h = ground arith
step-ctrl remapped b (mmap_call v) p h = ground arith
step-ctrl remapped b (ioctl_call stored get_rx_bufsize) p h = inl refl
step-ctrl remapped b (ioctl_call stored get_blocksize) p h = inl refl
step-ctrl remapped b (ioctl_call stored get_tx_bufsize) p h = inl refl
step-ctrl remapped b (ioctl_call stored enable) p h = cc
step-ctrl remapped b (ioctl_call stored (other n)) p h = inl refl
step-ctrl remapped b (read_call c) p h = ground arith
step-ctrl remapped b (write_call c) p h =
    ground
      (arith, ctrl_of-flush p.txbuf_phys (flush_ranges p.txbuf_size p.tx_wr_ptr c.wr) p.effects)
step-ctrl remapped b release_call p h = ground arith
step-ctrl remapped b (tick w) p h = ground arith

-- The calls of a session, in order.
unfoldable pub run : (ℕ → ℕ → Outcome ℕ) → ℕ → List Call → Priv → Priv
run remapped b [] p = p
run remapped b (c ∷ cs) p = run remapped b cs (step remapped b c p)

run-idle :
    (remapped : ℕ → ℕ → Outcome ℕ) (b : ℕ) (cs : List Call) (p : Priv)
    → All (λ c. starts c ≡ false) cs
    → ctrl_of p.effects ≡ 0
    → ctrl_of (run remapped b cs p).effects ≡ 0
unfolding run
run-idle remapped b [] p h e = e
run-idle remapped b (c ∷ cs) p h e =
    run-idle remapped b cs (step remapped b c p) h.1 (ground (arith, step-ctrl remapped b c p h.0))

-- From a successful open on, the FPGA stays disabled through any calls but `IOCTL_ENABLE`.
pub open-idle :
    (remapped : ℕ → ℕ → Outcome ℕ) (b hw_wr now : ℕ) (cs : List Call) (p : Priv)
    → p.in_use ≡ 0
    → All (λ c. starts c ≡ false) cs
    → ctrl_of (run remapped b cs (open_device hw_wr now p).1).effects ≡ 0
unfolding open_device
open-idle remapped b hw_wr now cs p free h =
    run-idle remapped b cs (open_device hw_wr now p).1 h (ground arith)

-- `IOCTL_ENABLE` enables exactly the directions whose buffer is mapped, with a write of 0 before, and
-- restarts the receive positions at 0.
pub enable_edge :
    (remapped : ℕ → ℕ → Outcome ℕ) (b : ℕ) (stored : Bool) (p : Priv)
    → let p' = step remapped b (ioctl_call stored enable) p in
      (p'.effects
        ≡ writel ctrl (
            (if ltb 0 p.rxbuf_size then ctrl_rx_enable else 0)
            + (if ltb 0 p.txbuf_size then ctrl_tx_enable else 0))
          ∷ writel ctrl 0
          ∷ p.effects)
      × (p'.rd_ptr ≡ 0)
      × (p'.timer_wr_ptr ≡ 0)
      × (p'.blocks_ready ≡ 0)
unfolding step ioctl
enable_edge remapped b stored p = ground arith
