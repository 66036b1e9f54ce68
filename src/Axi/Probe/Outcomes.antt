-- ===== src/Axi/Probe/Outcomes.antt =====
-- What a probe leaves behind, on success and on failure.
use zyndra.Base.{ℕ, ◌+◌, ◌/◌, ◌^◌, ◌≡◌, arith, List, [], ◌∷◌}
use zyndra.Axi.State.{Priv, info_magic}
use zyndra.Axi.Probe.{
  got, Platform, probed, Event, node_get, node_put, region, fresh_priv, check_fpga, register_misc,
  probe,
}

-- References taken, and dropped.
abbrev pub taken : List Event → ℕ
taken [] = 0
taken (node_get i ∷ es) = 1 + taken es
taken (e ∷ es) = taken es

abbrev pub dropped : List Event → ℕ
dropped [] = 0
dropped (node_put i ∷ es) = 1 + dropped es
dropped (e ∷ es) = dropped es

-- Every path, failing or not, drops the node references that it took.
pub probe-balanced : (pf : Platform) → taken (probe pf).1 ≡ dropped (probe pf).1
unfolding probe region check_fpga register_misc
probe-balanced pf = ground arith

-- A successful probe has seen the FPGA, took region 0 of `memory-region` for TX and region 1 for RX,
-- and leaves the device closed with nothing mapped.
pub probe-probed :
    (pf : Platform) {p : Priv}
    → (probe pf).0 ≡ probed p
    → (pf.info / 2 ^ 16 ≡ info_magic)
      × (pf.resource 0 ≡ got (record { start = p.txbuf_phys; size = p.txbuf_size_max }))
      × (pf.resource 1 ≡ got (record { start = p.rxbuf_phys; size = p.rxbuf_size_max }))
      × (p.in_use ≡ 0)
      × (p.rxbuf_size ≡ 0)
      × (p.txbuf_size ≡ 0)
unfolding probe region check_fpga register_misc fresh_priv
probe-probed pf h = ground arith
