-- ===== src/Txrx/Rx/Stream.antt =====
-- What the client of a TCP receive session gets: the blocks of the driver, in order.
use zyndra.Base.{
  if◌then◌else◌, ℕ, zero, suc, ◌+◌, ◌≤◌, ◌≡◌, refl, sym, ap, ◌∙◌, List, [], ◌∷◌, ◌++◌, Option, none,
  some, concat, drop, All, length, true, false, Bool, append_assoc,
}
use zyndra.Axi.State.{Priv}
use zyndra.Axi.Read.{RxRead}
use zyndra.Receiver.{bytes_at}
use zyndra.Txrx.Driver.{Driver, driver_rx_get_block, driver_enable}
use zyndra.Txrx.Net.Tcp.{Status, ok, error, waiting, tcp_send}
use zyndra.Txrx.Net.TcpLaws.{tcp_send-prefix, tcp_send-ok, Progresses, moves}
use zyndra.Txrx.Session.{prefill_blocks}
use zyndra.Txrx.Status.{DirStats}
use zyndra.Txrx.Rx.{
  Round, timers, Ended, rx_get_block, count_read, count_bytes, got, forward, rx_loop, if_enabled,
  rx_tcp_session,
}

module _ (k : ℕ) (d : Driver) where
  abbrev pub and_then : Option RxRead → (RxRead → List (List ℕ)) → List (List ℕ)
  and_then none go = []
  and_then (some x) go = go x

  -- The blocks that the driver hands out, up to the first call that fails: what the map holds at each
  -- offset.
  unfoldable pub blocks_read : List Round → Priv → List (List ℕ)
  blocks_read [] p = []
  blocks_read (r ∷ rs) p =
      let (o, q) = driver_rx_get_block k r.call d (timers k r.ticks p) in
      and_then o (λ (x : RxRead). bytes_at r.map x.rd d.block_size ∷ blocks_read rs q)

  -- A round that sends all of a block.
  abbrev pub Sends : Round → Type 0
  Sends r = All Progresses r.answers × (d.block_size ≤ moves r.answers)

  -- The bytes taken are the front of a stream.
  abbrev pub IsFront : List ℕ → List ℕ → Type 0
  IsFront xs ys = (rest : List ℕ) × (xs ++ rest ≡ ys)

  early : (xs b ys : List ℕ) → IsFront xs b → IsFront xs (b ++ ys)
  early xs b ys (rest, e) = (rest ++ ys, sym (append_assoc xs rest ys) ∙ ap (λ t. t ++ ys) e)

  forward-IsFront :
      (a : Status × List ℕ) (b ys : List ℕ) (rest stop : Ended)
      → IsFront a.1 b
      → (a.0 ≡ ok → a.1 ≡ b)
      → IsFront rest.taken ys
      → IsFront (forward k d a rest stop).taken (b ++ ys)
  forward-IsFront (ok, xs) b ys rest stop front whole more = (
    more.0,
    append_assoc xs rest.taken more.0 ∙ ap (λ t. xs ++ t) more.1 ∙ ap (λ t. t ++ ys) (whole refl),
  )
  forward-IsFront (error, xs) b ys rest stop front whole more = early xs b ys front
  forward-IsFront (waiting, xs) b ys rest stop front whole more = early xs b ys front

  drop_round-IsFront :
      (n : ℕ) (r : Round) (rs : List Round) (o : Option RxRead) (st : DirStats) (q : Priv)
      → ((st : DirStats)
          → IsFront (rx_loop k d n rs st q).taken (concat (drop n (blocks_read rs q))))
      → IsFront
          (got k d
            (o, count_read k d o st, q)
            (λ (x : RxRead) (st : DirStats) (q : Priv). rx_loop k d n rs st q)).taken
          (concat (
            drop
              (suc n)
              (and_then o (λ (x : RxRead). bytes_at r.map x.rd d.block_size ∷ blocks_read rs q))))
  drop_round-IsFront n r rs none st q more = ([], refl)
  drop_round-IsFront n r rs (some x) st q more = more (count_read k d (some x) st)

  send_round-IsFront :
      (r : Round) (rs : List Round) (o : Option RxRead) (st : DirStats) (q : Priv)
      → ((st : DirStats) → IsFront (rx_loop k d zero rs st q).taken (concat (blocks_read rs q)))
      → IsFront
          (got k d
            (o, count_read k d o st, q)
            (λ (x : RxRead) (st : DirStats) (q : Priv).
              forward k d
                (tcp_send (bytes_at r.map x.rd d.block_size) r.answers)
                (rx_loop k d zero rs (count_bytes k d st) q)
                (record { taken = []; stats = st; driver = q }))).taken
          (concat
            (and_then o (λ (x : RxRead). bytes_at r.map x.rd d.block_size ∷ blocks_read rs q)))
  send_round-IsFront r rs none st q more = ([], refl)
  send_round-IsFront r rs (some x) st q more =
      let bytes = bytes_at r.map x.rd d.block_size in
      let st' = count_read k d (some x) st in
      forward-IsFront (tcp_send bytes r.answers) bytes (concat (blocks_read rs q))
        (rx_loop k d zero rs (count_bytes k d st') q)
        (record { taken = []; stats = st'; driver = q }) (tcp_send-prefix bytes r.answers)
        (tcp_send-ok bytes r.answers) (more (count_bytes k d st'))

  -- Whatever the driver and the socket answer, the client has got the front of the blocks handed out
  -- after the first `n`, in order, without a gap and each byte once.
  pub rx_loop-IsFront :
      (n : ℕ) (rs : List Round) (st : DirStats) (p : Priv)
      → IsFront (rx_loop k d n rs st p).taken (concat (drop n (blocks_read rs p)))
  unfolding rx_loop blocks_read rx_get_block
  rx_loop-IsFront zero [] st p = ([], refl)
  rx_loop-IsFront (suc n) [] st p = ([], refl)
  rx_loop-IsFront (suc n) (r ∷ rs) st p =
      let (o, q) = driver_rx_get_block k r.call d (timers k r.ticks p) in
      drop_round-IsFront n r rs o st q (λ st. rx_loop-IsFront n rs st q)
  rx_loop-IsFront zero (r ∷ rs) st p =
      let (o, q) = driver_rx_get_block k r.call d (timers k r.ticks p) in
      send_round-IsFront r rs o st q (λ st. rx_loop-IsFront zero rs st q)

  -- The driver when the loops start.
  abbrev pub started : Bool → Bool → Priv → Priv
  started with_tx stored p = if with_tx then p else (driver_enable k stored d p).1

  if_enabled-IsFront :
      (o : Option ℕ) (q : Priv) (st : DirStats) (go : Priv → Ended) (ys : List ℕ)
      → IsFront (go q).taken ys
      → IsFront (if_enabled k d (o, q) st go).taken ys
  if_enabled-IsFront none q st go ys h = (ys, refl)
  if_enabled-IsFront (some n) q st go ys h = h

  -- Whatever the driver and the socket answer, a client of a receive session, with a TX thread or
  -- without, has got the front of the blocks that the driver handed out after the first
  -- `prefill_blocks`, in order, without a gap and each byte once.
  pub rx_tcp_session-IsFront :
      (with_tx stored : Bool) (rs : List Round) (st : DirStats) (p : Priv)
      → IsFront
          (rx_tcp_session k d with_tx stored rs st p).taken
          (concat (drop (prefill_blocks d.block_size) (blocks_read rs (started with_tx stored p))))
  unfolding rx_tcp_session
  rx_tcp_session-IsFront true stored rs st p = rx_loop-IsFront (prefill_blocks d.block_size) rs st p
  rx_tcp_session-IsFront false stored rs st p =
      let (o, q) = driver_enable k stored d p in
      if_enabled-IsFront o q st (rx_loop k d (prefill_blocks d.block_size) rs st)
        (concat (drop (prefill_blocks d.block_size) (blocks_read rs q)))
        (rx_loop-IsFront (prefill_blocks d.block_size) rs st q)

  pub length-bytes_at : (map : ℕ → ℕ) (off n : ℕ) → length (bytes_at map off n) ≡ n
  unfolding bytes_at
  length-bytes_at map off zero = refl
  length-bytes_at map off (suc n) = ap suc (length-bytes_at map (off + 1) n)
