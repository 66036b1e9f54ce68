-- ===== src/Qemu/Tests.antt =====
-- The device with a library of one register that counts its ticks.
use zyndra.Base.{ℕ, ◌+◌, ◌≡◌, refl, true, List, [], ◌∷◌, Option, none, some}
use zyndra.Qemu.{
  Library, Host, Access, reads, writes, ticks, fresh, run, mmio_read, mmio_write, rx_tick,
  dma_write, dma_writes,
}
use zyndra.Qemu.Lifecycle.{follow_all, nothing, is_some, history, history_lem}

abbrev value_of : Option ℕ → ℕ
value_of none = 0
value_of (some n) = n

abbrev counter : Library ℕ
counter = record {
  fn_create = some 0;
  fn_read = λ ctx addr size. value_of ctx;
  after_read = λ addr size n. n;
  after_write = λ addr val size n. val;
  fn_tick = λ ctx. (value_of ctx, 7 ∷ 8 ∷ []) ∷ [];
  after_tick = λ n. n + 1;
}

abbrev host : Host
host = record { lib_path = true; loads = true; exports = λ s. true }

abbrev accesses : List (Access counter)
accesses = writes 4 40 4 ∷ ticks 5 ∷ ticks 6 ∷ reads 4 4 ∷ []

abbrev blank : ℕ → ℕ
blank a = 0

run_reads : (run counter accesses blank (record (fresh counter) { rust_ctx = some 1 })).0 ≡ 42 ∷ []
unfolding run mmio_read mmio_write rx_tick
run_reads = refl

run_writes : (run counter accesses blank (record (fresh counter) { rust_ctx = some 1 })).1 41 ≡ 7
unfolding run mmio_read mmio_write rx_tick dma_write dma_writes
run_writes = refl

history_lem_example :
    follow_all (is_some counter.fn_create) (history counter host 0 accesses blank) nothing
    ≡ some nothing
history_lem_example = history_lem counter host 0 accesses blank
