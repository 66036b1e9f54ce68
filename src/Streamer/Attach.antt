-- ===== src/Streamer/Attach.antt =====
-- `ad936x_tcp_probe`, over the same answers of the kernel as the probe of ad936x-axi.
use zyndra.Base.{ℕ, ◌≡◌, arith, []}
use zyndra.Axi.State.{Priv}
use zyndra.Axi.Probe.{
  Answer, got, code, Platform, kernel, failed, probed, Step, ◌>>=◌, region, check_fpga,
  register_misc, fresh_priv, probe,
}
use zyndra.Streamer.{Streamer, fpga_disable}

-- `kthread_create` answers with a thread or an error; a thread is bound to a processor and woken.
unfoldable pub start_thread : Answer ℕ → Streamer → Step Streamer
start_thread (got thread) p = (probed p, [])
start_thread (code e) p = (failed (kernel e), [])

-- The stanzas for the registers, the FPGA and `memory-region` have the text of ad936x-axi.
unfoldable pub tcp_probe : Platform → Answer ℕ → Step Streamer
tcp_probe pf thread = do
  base ← check_fpga pf
  rx ← region pf 0
  start_thread thread
      (record { rxbuf_phys = rx.start; rxbuf_size = rx.size; rd_ptr = 0; effects = [] })

-- `ad936x_tcp_remove`, after `kthread_stop` has waited for the thread's end.
unfoldable pub tcp_remove : Streamer → Streamer
tcp_remove p = fpga_disable p

-- On one device tree, the memory into which this driver makes the FPGA receive is the memory that
-- ad936x-axi transmits from.
pub tcp_probe-probe :
    (pf : Platform) (thread : Answer ℕ) {q : Streamer} {p : Priv}
    → (tcp_probe pf thread).0 ≡ probed q
    → (probe pf).0 ≡ probed p
    → (q.rxbuf_phys ≡ p.txbuf_phys) × (q.rxbuf_size ≡ p.txbuf_size_max)
unfolding tcp_probe start_thread probe region check_fpga register_misc fresh_priv
tcp_probe-probe pf thread {q} {p} h k = ground arith
