-- ===== src/Axi/Api/Single.antt =====
-- The device is open at most once at a time.
use zyndra.Base.{ℕ, ◌≡◌, arith, Bool, true, false, List, [], ◌∷◌, All}
use zyndra.Axi.State.{Priv, Outcome, fail, ret, ebusy}
use zyndra.Axi.Timer.{timer, accept_blocks}
use zyndra.Axi.Read.{read, deliver, take_block, advance_rd, check_overrun, skip_overrun}
use zyndra.Axi.Write.{write, publish}
use zyndra.Axi.Control.{
  open_device, mmap, ioctl, release, get_rx_bufsize, get_blocksize, get_tx_bufsize, enable, other,
}
use zyndra.Axi.Api.{
  Call, open_call, mmap_call, ioctl_call, read_call, write_call, release_call, tick, step,
}
use zyndra.Axi.Api.Ctrl.{run}

abbrev pub releases : Call → Bool
releases release_call = true
releases c = false

module _ (remapped : ℕ → ℕ → Outcome ℕ) (b : ℕ) where
  step-in_use :
      (c : Call) (p : Priv) → releases c ≡ false → p.in_use ≡ 1 → (step remapped b c p).in_use ≡ 1
  unfolding step open_device mmap ioctl read deliver take_block advance_rd check_overrun
      skip_overrun write publish timer accept_blocks
  step-in_use (open_call hw_wr now) p h e = ground arith
  step-in_use (mmap_call v) p h e = ground arith
  step-in_use (ioctl_call stored get_rx_bufsize) p h e = e
  step-in_use (ioctl_call stored get_blocksize) p h e = e
  step-in_use (ioctl_call stored get_tx_bufsize) p h e = e
  step-in_use (ioctl_call stored enable) p h e = e
  step-in_use (ioctl_call stored (other n)) p h e = e
  step-in_use (read_call c) p h e = ground arith
  step-in_use (write_call c) p h e = ground arith
  step-in_use release_call p h e = cc
  step-in_use (tick w) p h e = ground arith

  run-in_use :
      (cs : List Call) (p : Priv)
      → All (λ c. releases c ≡ false) cs
      → p.in_use ≡ 1
      → (run remapped b cs p).in_use ≡ 1
  unfolding run
  run-in_use [] p h e = e
  run-in_use (c ∷ cs) p h e = run-in_use cs (step remapped b c p) h.1 (step-in_use c p h.0 e)

  -- After a successful open, every further open before a release fails with EBUSY and changes
  -- nothing, whatever other calls are made; after a release an open succeeds.
  pub open-exclusive :
      (p : Priv) (hw_wr now hw_wr' now' : ℕ) (cs : List Call)
      → p.in_use ≡ 0
      → All (λ c. releases c ≡ false) cs
      → let q = run remapped b cs (open_device hw_wr now p).1 in
        (open_device hw_wr' now' q ≡ (fail ebusy, q))
        × ((open_device hw_wr' now' (release q)).0 ≡ ret 0)
  unfolding open_device release
  open-exclusive p hw_wr now hw_wr' now' cs free h =
      ground (arith, run-in_use cs (open_device hw_wr now p).1 h)
