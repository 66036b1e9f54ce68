-- ===== src/Txrx/Tx.antt =====
-- tx.c: the data path of the TX thread, from the socket through the map to the driver. When the
-- thread runs, in step with the RX thread, is in `Session`.
pub mod Depth
pub mod Stream
pub mod Live
pub mod Whole
use zyndra.Base.{
  ℕ, zero, suc, ◌+◌, ◌/◌, ◌%◌, List, [], ◌∷◌, ◌++◌, Option, none, some, Bool, true, false,
  if◌then◌else◌, ltb, add32, sub32, mul32, add64, replicate,
}
use zyndra.Axi.State.{Priv}
use zyndra.Axi.Write.{WriteCall}
use zyndra.Receiver.{bytes_at}
use zyndra.Txrx.Driver.{Driver, driver_tx_put_block, driver_enable}
use zyndra.Txrx.Net.Tcp.{Answer, Status, ok, error, waiting, tcp_recv_full}
use zyndra.Txrx.Prbs.{update}
use zyndra.Txrx.Session.{prefill_blocks}
use zyndra.Txrx.Status.{DirStats}

-- The size of the ring that `tx_task` maps. `samples` is `tx_depth_msamples * 1000000.0` cut to 32
-- bits, and `limited` says whether the depth is positive.
unfoldable pub effective_size : Bool → ℕ → ℕ → ℕ → ℕ
effective_size limited samples block_size tx_buf_size =
    let bytes = mul32 samples 4 in
    let rounded = mul32 (sub32 (add32 bytes block_size) 1 / block_size) block_size in
    if limited then (if ltb tx_buf_size rounded then tx_buf_size else rounded) else tx_buf_size

-- Bytes stored in the map.
unfoldable pub store : (ℕ → ℕ) → ℕ → List ℕ → ℕ → ℕ
store map off [] = map
store map off (x ∷ xs) = store (update map off x) (off + 1) xs

-- What a round of the loop over the socket meets.
pub record Round : Type 0 where
  pub call : WriteCall
  pub answers : List Answer

-- A block that `driver_tx_put_block` has published: its offset, and what the map holds there then.
pub record Published : Type 0 where
  pub at : ℕ
  pub bytes : List ℕ

-- How a session ends: the blocks published, what the map holds, the statistics and the driver.
pub record Ended : Type 0 where
  pub blocks : List Published
  pub map : ℕ → ℕ
  pub stats : DirStats
  pub driver : Priv

abbrev pub stopped : (ℕ → ℕ) → DirStats → Priv → Ended
stopped map st p = record { blocks = []; map = map; stats = st; driver = p }

-- `k` is the block size of the kernel driver.
module _ (k map_size : ℕ) (d : Driver) where
  abbrev pub count_bytes : DirStats → DirStats
  count_bytes st = record st { bytes = add64 st.bytes d.block_size }

  -- The answer of `driver_tx_put_block`, and what follows if it is 0.
  abbrev pub put : Option ℕ → Published → Ended → Ended → Ended
  put none x rest stop = stop
  put (some n) x rest stop = record rest { blocks = x ∷ rest.blocks }

  abbrev pub advanced : ℕ → ℕ
  advanced wr = add32 wr d.block_size % map_size

  abbrev pub received : Status → Ended → Ended → Ended
  received ok go stop = go
  received error go stop = stop
  received waiting go stop = stop

  -- The loop over the socket, with the bytes that arrive.
  unfoldable pub tx_loop : List Round → List ℕ → ℕ → (ℕ → ℕ) → DirStats → Priv → Ended
  tx_loop [] stream wr map st p = stopped map st p
  tx_loop (r ∷ rs) stream wr map st p =
      let (s, xs, rest) = tcp_recv_full d.block_size stream r.answers in
      let map' = store map wr xs in
      let (o, q) = driver_tx_put_block k (advanced wr) r.call d p in
      received s
        (put o (record { at = wr; bytes = bytes_at map' wr d.block_size })
          (tx_loop rs rest (advanced wr) map' (count_bytes st) q) (stopped map' st q))
        (stopped map' st p)

  -- The blocks of silence; the statistics do not count them.
  unfoldable pub prefill_loop :
      ℕ → List WriteCall → ℕ → (ℕ → ℕ) → DirStats → Priv → (ℕ → (ℕ → ℕ) → Priv → Ended) → Ended
  prefill_loop zero cs wr map st p go = go wr map p
  prefill_loop (suc n) [] wr map st p go = stopped map st p
  prefill_loop (suc n) (c ∷ cs) wr map st p go =
      let map' = store map wr (replicate d.block_size 0) in
      let (o, q) = driver_tx_put_block k (advanced wr) c d p in
      put o (record { at = wr; bytes = bytes_at map' wr d.block_size })
        (prefill_loop n cs (advanced wr) map' st q go) (stopped map' st q)

  abbrev pub if_enabled : Option ℕ × Priv → (ℕ → ℕ) → DirStats → (Priv → Ended) → Ended
  if_enabled (none, p) map st go = stopped map st p
  if_enabled (some n, p) map st go = go p

  -- `tx_tcp_session` after its wait for the RX thread.
  unfoldable pub tx_tcp_session :
      Bool → List WriteCall → List Round → List ℕ → (ℕ → ℕ) → DirStats → Priv → Ended
  tx_tcp_session stored cs rs stream map st p =
      prefill_loop (prefill_blocks d.block_size) cs 0 map st p (λ (wr : ℕ) (map : ℕ → ℕ) (q : Priv).
        if_enabled (driver_enable k stored d q) map st
          (λ (p : Priv). tx_loop rs stream wr map st p))
