-- ===== src/Txrx/Rx/Whole.antt =====
-- A TCP receive session whose socket keeps up.
use zyndra.Base.{
  ◌<◌, ℕ, zero, suc, ◌+◌, ◌%◌, ◌^◌, ◌≡◌, refl, ap, arith, List, [], ◌∷◌, ◌++◌, Option, none, some,
  concat, drop, All, length, length-append,
}
use zyndra.Axi.State.{Priv}
use zyndra.Axi.Read.{RxRead}
use zyndra.Receiver.{bytes_at}
use zyndra.Txrx.Driver.{Driver, driver_rx_get_block}
use zyndra.Txrx.Net.Tcp.{ok, tcp_send}
use zyndra.Txrx.Net.TcpLaws.{tcp_send-finishes}
use zyndra.Txrx.Status.{DirStats}
use zyndra.Txrx.Rx.{
  timers, Round, Ended, rx_get_block, count_read, count_bytes, got, forward, rx_loop,
}
use zyndra.Txrx.Rx.Stream.{and_then, blocks_read, Sends, length-bytes_at}

module _ (k : ℕ) (d : Driver) where
  -- All of a stream is taken, and the statistics have counted its bytes.
  abbrev pub IsWhole : DirStats → Ended → List ℕ → Type 0
  IsWhole st e ys = (e.taken ≡ ys) × (e.stats.bytes ≡ (st.bytes + length ys) % 2 ^ 64)

  drop_round-IsWhole :
      (n : ℕ) (r : Round) (rs : List Round) (o : Option RxRead) (st : DirStats) (q : Priv)
      → st.bytes < 2 ^ 64
      → ((st' : DirStats)
          → st'.bytes ≡ st.bytes
          → IsWhole st' (rx_loop k d n rs st' q) (concat (drop n (blocks_read k d rs q))))
      → IsWhole st
          (got k d
            (o, count_read k d o st, q)
            (λ (x : RxRead) (st : DirStats) (q : Priv). rx_loop k d n rs st q))
          (concat (
            drop (suc n) (
              and_then k d o
                (λ (x : RxRead). bytes_at r.map x.rd d.block_size ∷ blocks_read k d rs q))))
  drop_round-IsWhole n r rs none st q h more = (refl, omega arith)
  drop_round-IsWhole n r rs (some x) st q h more = more (count_read k d (some x) st) refl

  send_round-IsWhole :
      (r : Round) (rs : List Round) (o : Option RxRead) (st : DirStats) (q : Priv)
      → st.bytes < 2 ^ 64
      → Sends k d r
      → ((st' : DirStats)
          → st'.bytes < 2 ^ 64
          → IsWhole st' (rx_loop k d zero rs st' q) (concat (blocks_read k d rs q)))
      → IsWhole st
          (got k d
            (o, count_read k d o st, q)
            (λ (x : RxRead) (st : DirStats) (q : Priv).
              forward k d
                (tcp_send (bytes_at r.map x.rd d.block_size) r.answers)
                (rx_loop k d zero rs (count_bytes k d st) q)
                (record { taken = []; stats = st; driver = q })))
          (concat (
            and_then k d o
              (λ (x : RxRead). bytes_at r.map x.rd d.block_size ∷ blocks_read k d rs q)))
  send_round-IsWhole r rs none st q h sends more = (refl, omega arith)
  send_round-IsWhole r rs (some x) st q h sends more = rw all (taken, counted)
    where
      bytes : List ℕ
      bytes = bytes_at r.map x.rd d.block_size

      st' : DirStats
      st' = count_bytes k d (count_read k d (some x) st)

      whole : IsWhole st' (rx_loop k d zero rs st' q) (concat (blocks_read k d rs q))
      whole = more st' (omega arith)

      all : tcp_send bytes r.answers ≡ (ok, bytes)
      all =
          tcp_send-finishes bytes r.answers sends.0
            (omega (arith, length-bytes_at k d r.map x.rd d.block_size, sends.1))

      taken : bytes ++ (rx_loop k d zero rs st' q).taken ≡ bytes ++ concat (blocks_read k d rs q)
      taken = ap (λ t. bytes ++ t) whole.0

      counted :
          (rx_loop k d zero rs st' q).stats.bytes
          ≡ (st.bytes + length (bytes ++ concat (blocks_read k d rs q))) % 2 ^ 64
      counted = omega (
        arith,
        whole.1,
        length-append bytes (concat (blocks_read k d rs q)),
        length-bytes_at k d r.map x.rd d.block_size,
      )

  -- From a byte count that is a 64-bit word: when the socket of each round takes bytes often
  -- enough, it has taken all of the blocks handed out after the first `n`, and the statistics have
  -- counted exactly those bytes, modulo 2^64.
  pub rx_loop-IsWhole :
      (n : ℕ) (rs : List Round) (st : DirStats) (p : Priv)
      → st.bytes < 2 ^ 64
      → All (Sends k d) rs
      → IsWhole st (rx_loop k d n rs st p) (concat (drop n (blocks_read k d rs p)))
  unfolding rx_loop blocks_read rx_get_block
  rx_loop-IsWhole zero [] st p h a = (refl, omega arith)
  rx_loop-IsWhole (suc n) [] st p h a = (refl, omega arith)
  rx_loop-IsWhole (suc n) (r ∷ rs) st p h a =
      let (o, q) = driver_rx_get_block k r.call d (timers k r.ticks p) in
      drop_round-IsWhole n r rs o st q h
        (λ st' e. rx_loop-IsWhole n rs st' q (omega (arith, e)) a.1)
  rx_loop-IsWhole zero (r ∷ rs) st p h a =
      let (o, q) = driver_rx_get_block k r.call d (timers k r.ticks p) in
      send_round-IsWhole r rs o st q h a.0 (λ st' h'. rx_loop-IsWhole zero rs st' q h' a.1)
