-- ===== src/Txrx/Rx/Live.antt =====
-- The receive path from end to end: what a client gets is the FPGA's stream.
use zyndra.Base.{
  ℕ, zero, suc, ◌+◌, ◌-◌, ◌*◌, ◌/◌, ◌%◌, ◌^◌, ◌<◌, ◌≡◌, refl, sym, subst, ap, ◌∙◌, arith, true,
  false, List, [], ◌∷◌, ◌++◌, Option, some, concat, drop, append_assoc, append-nil, length,
  drop-nil, none, All,
}
use zyndra.Axi.State.{Priv, ret}
use zyndra.Axi.Timer.{timer}
use zyndra.Axi.Read.{RxRead, ReadCall, read}
use zyndra.Axi.Rx.Serve.{served, read-serves}
use zyndra.Axi.Rx.Run.{Receiver, enabled, produce, tick, IsSynced, ring-lt}
use zyndra.Axi.Rx.Content.{HoldsStream, Streams, passes, takes, begins, Streams-concat}
use zyndra.Receiver.{bytes_at}
use zyndra.Txrx.Driver.{Driver, driver_rx_get_block}
use zyndra.Txrx.Status.{DirStats}
use zyndra.Txrx.Rx.{Round, timers, rx_loop}
use zyndra.Txrx.Rx.Stream.{and_then, blocks_read, length-bytes_at, IsFront, rx_loop-IsFront}

drop-append : (xs ys : List ℕ) (n k : ℕ) → n ≡ length xs + k → drop n (xs ++ ys) ≡ drop k ys
drop-append [] ys n k e = ap (λ j. drop j ys) (e ∙ omega arith)
drop-append (x ∷ xs) ys zero k e = absurd (omega arith)
drop-append (x ∷ xs) ys (suc n) k e = drop-append xs ys n k (omega arith)

concat-drop :
    (b m : ℕ) (bs : List (List ℕ))
    → All (λ (x : List ℕ). length x ≡ b) bs
    → concat (drop m bs) ≡ drop (m * b) (concat bs)
concat-drop b zero bs a = ap (λ k. drop k (concat bs)) {x = 0} {y = 0 * b} (omega arith)
concat-drop b (suc m) [] a = sym (drop-nil [] (suc m * b) refl)
concat-drop b (suc m) (x ∷ bs) a =
    concat-drop b m bs a.1
    ∙ sym (drop-append x (concat bs) (suc m * b) (m * b) (omega (arith, a.0)))

module _ (b n : ℕ) where
  -- Timer callbacks that read these pointers, each after some more bytes.
  pub data Ticks : Receiver → List ℕ → Receiver → Type 0 where
    still : (s : Receiver) → Ticks s [] s
    ticked :
        (s : Receiver) (d : ℕ) {ws : List ℕ} {u : Receiver}
        → s.written + d < s.counted * b + n * b
        → (s.written + d) / b - s.passed < 2 ^ 31
        → Ticks
            (record s {
              written = s.written + d;
              counted = (s.written + d) / b;
              driver = timer b ((s.written + d) % (n * b)) s.driver;
            })
            ws
            u
        → Ticks s ((s.written + d) % (n * b) ∷ ws) u

  -- The call of `read` as `driver_rx_get_block` makes it.
  abbrev pub asked : ReadCall → ReadCall
  asked c = record c { count = 12 }

  abbrev pub block_taken : Receiver → ReadCall → Receiver
  block_taken u c = record u { passed = u.passed + 1; driver = (read b (asked c) u.driver).1 }

  -- Rounds in which a block is ready, and the FPGA stays less than a ring ahead of the timer and of
  -- the block that is sent.
  pub data Live (f : ℕ → ℕ) : Receiver → List Round → Type 0 where
    ends : (s : Receiver) → Live f s []
    goes_on :
        {s u : Receiver} {rs : List Round} (r : Round)
        → Ticks s r.ticks u
        → r.call.wr_overrun ≡ u.written % (n * b)
        → u.passed < u.counted
        → u.driver.closing ≡ false
        → r.call.copied ≡ true
        → u.written < u.passed * b + n * b
        → HoldsStream f (n * b) u.written r.map
        → Live f (block_taken u r.call) rs
        → Live f s (r ∷ rs)

  Ticks-driver : {s u : Receiver} {ws : List ℕ} → Ticks s ws u → timers b ws s.driver ≡ u.driver
  unfolding timers
  Ticks-driver (still s) = refl
  Ticks-driver (ticked s d room few t) = Ticks-driver t

  Ticks-Streams :
      {f : ℕ → ℕ} {bs : List (List ℕ)} {s u : Receiver} {ws : List ℕ}
      → Ticks s ws u
      → Streams b n f bs s
      → Streams b n f bs u
  Ticks-Streams (still s) h = h
  Ticks-Streams (ticked s d room few t) h = Ticks-Streams t (
      passes (passes h (produce s d room) refl) (tick (record s { written = s.written + d }) few)
        refl)

  -- The open device, with the block size of the kernel driver.
  abbrev pub opened : ℕ → ℕ → Driver
  opened rx tx = record { fd_open = true; rx_buf_size = rx; tx_buf_size = tx; block_size = b }

  module _ (rx tx : ℕ) where
    next_block :
        (rs : List Round) (r : Round) (p q : Priv) (x : RxRead)
        → timers b r.ticks p ≡ q
        → (read b (asked r.call) q).0 ≡ ret x
        → blocks_read b (opened rx tx) (r ∷ rs) p
          ≡ bytes_at r.map x.rd b ∷ blocks_read b (opened rx tx) rs (read b (asked r.call) q).1
    unfolding blocks_read driver_rx_get_block
    next_block rs r p q x e e' = rw (e, e') refl

    no_rounds : (bs : List (List ℕ)) (p : Priv) → bs ++ blocks_read b (opened rx tx) [] p ≡ bs
    unfolding blocks_read
    no_rounds bs p = append-nil bs

    round-Streams :
        {f : ℕ → ℕ} {bs : List (List ℕ)} {s u : Receiver} (rs : List Round) (r : Round)
        → Ticks s r.ticks u
        → r.call.wr_overrun ≡ u.written % (n * b)
        → u.passed < u.counted
        → u.driver.closing ≡ false
        → r.call.copied ≡ true
        → u.written < u.passed * b + n * b
        → HoldsStream f (n * b) u.written r.map
        → Streams b n f bs s
        → ((bs' : List (List ℕ))
            → Streams b n f bs' (block_taken u r.call)
            → (w : Receiver) × Streams b n f
                (bs' ++ blocks_read b (opened rx tx) rs (read b (asked r.call) u.driver).1)
                w)
        → (w : Receiver) × Streams b n f (bs ++ blocks_read b (opened rx tx) (r ∷ rs) s.driver) w
    round-Streams {f} {bs} {s} {u} rs r t at ready is_on copied fresh holds h more =
        (rest.0, subst (λ t. Streams b n f t rest.0) same rest.1)
      where
        before : Streams b n f bs u
        before = Ticks-Streams t h

        v : IsSynced b n u
        v = (Streams-concat b n before).0

        x : RxRead
        x = served b n u.passed u.counted (asked r.call)

        reads : (read b (asked r.call) u.driver).0 ≡ ret x
        reads =
            (read-serves (asked r.call) v.inv (subst (λ w. w < n * b) (sym at) (ring-lt b n v))
              ready is_on (omega arith) copied).0

        block : List ℕ
        block = bytes_at r.map x.rd b

        after : Priv
        after = (read b (asked r.call) u.driver).1

        rest :
            (w : Receiver) × Streams b n f
              ((bs ++ block ∷ []) ++ blocks_read b (opened rx tx) rs after)
              w
        rest = more (bs ++ block ∷ []) (
            takes (asked r.call) r.map x before at ready is_on (omega arith) copied fresh holds
              reads)

        same :
            (bs ++ block ∷ []) ++ blocks_read b (opened rx tx) rs after
            ≡ bs ++ blocks_read b (opened rx tx) (r ∷ rs) s.driver
        same =
            append_assoc bs (block ∷ []) (blocks_read b (opened rx tx) rs after)
            ∙ ap (λ t. bs ++ t) (sym (next_block rs r s.driver u.driver x (Ticks-driver t) reads))

    -- What is read in such rounds continues the stream.
    pub blocks_read-Streams :
        {f : ℕ → ℕ} {bs : List (List ℕ)} {s : Receiver} {rs : List Round}
        → Live f s rs
        → Streams b n f bs s
        → (u : Receiver) × Streams b n f (bs ++ blocks_read b (opened rx tx) rs s.driver) u
    blocks_read-Streams {f} {bs} (ends s) h =
        (s, subst (λ t. Streams b n f t s) (sym (no_rounds bs s.driver)) h)
    blocks_read-Streams {f = f} {bs = bs}
          (goes_on {s} {u} {rs} r t at ready is_on copied fresh holds more) h =
        round-Streams rs r t at ready is_on copied fresh holds h
          (λ bs' h'. blocks_read-Streams {bs = bs'} more h')

    block_lengths :
        (o : Option RxRead) (r : Round) (rs : List Round) (q : Priv)
        → All (λ (x : List ℕ). length x ≡ b) (blocks_read b (opened rx tx) rs q)
        → All
            (λ (x : List ℕ). length x ≡ b)
            (and_then b
              (opened rx tx)
              o
              (λ (x : RxRead). bytes_at r.map x.rd b ∷ blocks_read b (opened rx tx) rs q))
    block_lengths none r rs q h = tt
    block_lengths (some x) r rs q h = (length-bytes_at b (opened rx tx) r.map x.rd b, h)

    blocks_read-lengths :
        (rs : List Round) (p : Priv)
        → All (λ (x : List ℕ). length x ≡ b) (blocks_read b (opened rx tx) rs p)
    unfolding blocks_read
    blocks_read-lengths [] p = tt
    blocks_read-lengths (r ∷ rs) p =
        let (o, q) = driver_rx_get_block b r.call (opened rx tx) (timers b r.ticks p) in
        block_lengths o r rs q (blocks_read-lengths rs q)

    -- From `IOCTL_ENABLE` on, with a ring of whole blocks below 2^31 bytes, in rounds in which a
    -- block is ready and the FPGA stays less than a ring ahead of the timer and of the block that
    -- is sent: whatever the socket answers, the client has got the front of the FPGA's sample
    -- stream from block `m` on, where `m` blocks are to be dropped.
    pub rx_loop-stream :
        (f : ℕ → ℕ) (m : ℕ) (rs : List Round) (st : DirStats) (p : Priv)
        → 0 < b
        → 0 < n
        → n * b < 2 ^ 31
        → p.rxbuf_size ≡ n * b
        → Live f (enabled b n p) rs
        → (k : ℕ) × IsFront b
            (opened rx tx)
            (rx_loop b (opened rx tx) m rs st (enabled b n p).driver).taken
            (drop (m * b) (bytes_at f 0 (k * b)))
    rx_loop-stream f m rs st p b_pos n_pos fits size live =
        let (u, h) = blocks_read-Streams live (begins p b_pos n_pos fits size) in
        let front = rx_loop-IsFront b (opened rx tx) m rs st (enabled b n p).driver in
        (
          u.passed,
          (
            front.0,
            front.1
                ∙ concat-drop b m (blocks_read b (opened rx tx) rs (enabled b n p).driver)
                    (blocks_read-lengths rs (enabled b n p).driver)
                ∙ ap (drop (m * b)) (Streams-concat b n h).1,
          ),
        )
