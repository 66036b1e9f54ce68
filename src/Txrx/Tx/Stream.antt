-- ===== src/Txrx/Tx/Stream.antt =====
-- What the FPGA is given to send: silence, and then what the client sends.
use zyndra.Base.{
  ℕ, zero, suc, ◌+◌, ◌*◌, ◌%◌, ◌≤◌, ◌<◌, ◌≡◌, refl, sym, ap, ap₂, ◌∙◌, arith, List, [], ◌∷◌, ◌++◌,
  Option, none, some, take, drop, length, Bool, append_assoc, length-take, length-drop,
  take-append-drop, replicate, add32, length-replicate, subst,
}
use zyndra.Axi.State.{Priv}
use zyndra.Axi.Write.{WriteCall}
use zyndra.Receiver.{bytes_at}
use zyndra.Txrx.Driver.{Driver, driver_tx_put_block, driver_enable}
use zyndra.Txrx.Net.Tcp.{Status, ok, error, waiting, tcp_recv_full}
use zyndra.Txrx.Net.TcpLaws.{tcp_recv_full-ok}
use zyndra.Txrx.Prbs.{update}
use zyndra.Txrx.Session.{prefill_blocks}
use zyndra.Txrx.Status.{DirStats}
use zyndra.Txrx.Tx.{
  store, Round, Published, Ended, stopped, count_bytes, put, advanced, received, tx_loop,
  prefill_loop, if_enabled, tx_tcp_session,
}

store-below : (xs : List ℕ) (map : ℕ → ℕ) (off a : ℕ) → a < off → store map off xs a ≡ map a
unfolding store
store-below [] map off a h = refl
store-below (x ∷ xs) map off a h =
    store-below xs (update map off x) (off + 1) a (omega arith) ∙ ground arith

-- What is stored is what is there.
bytes_at-store :
    (xs : List ℕ) (map : ℕ → ℕ) (off : ℕ) → bytes_at (store map off xs) off (length xs) ≡ xs
unfolding store bytes_at
bytes_at-store [] map off = refl
bytes_at-store (x ∷ xs) map off =
    ap₂ (λ y ys. y ∷ ys)
      (store-below xs (update map off x) (off + 1) off (omega arith) ∙ ground arith)
      (bytes_at-store xs (update map off x) (off + 1))

module _ (k map_size : ℕ) (d : Driver) where
  abbrev pub content : List Published → List ℕ
  content [] = []
  content (x ∷ xs) = x.bytes ++ content xs

  -- Each block lies behind the one before it in the ring.
  abbrev pub InRing : ℕ → List Published → Type 0
  InRing w [] = Unit
  InRing w (x ∷ xs) = (x.at ≡ w) × InRing (add32 w d.block_size % map_size) xs

  -- Blocks from an offset on that carry the front of a stream.
  abbrev pub Carries : ℕ → List ℕ → List Published → Type 0
  Carries w stream xs = InRing w xs × ((rest : List ℕ) × (content xs ++ rest ≡ stream))

  put-Carries :
      (o : Option ℕ) (w : ℕ) (bytes ys : List ℕ) (rest : Ended) (map : ℕ → ℕ) (st : DirStats)
      (q : Priv)
      → Carries (add32 w d.block_size % map_size) ys rest.blocks
      → Carries w
          (bytes ++ ys)
          (put k map_size d o (record { at = w; bytes = bytes }) rest (stopped map st q)).blocks
  put-Carries none w bytes ys rest map st q h = (tt, (bytes ++ ys, refl))
  put-Carries (some n) w bytes ys rest map st q h = (
    (refl, h.0),
    (h.1.0, append_assoc bytes (content rest.blocks) h.1.0 ∙ ap (λ t. bytes ++ t) h.1.1),
  )

  received-Carries :
      (s : Status) (w : ℕ) (ys : List ℕ) (go : Ended) (map : ℕ → ℕ) (st : DirStats) (p : Priv)
      → (s ≡ ok → Carries w ys go.blocks)
      → Carries w ys (received k map_size d s go (stopped map st p)).blocks
  received-Carries ok w ys go map st p h = h refl
  received-Carries error w ys go map st p h = (tt, (ys, refl))
  received-Carries waiting w ys go map st p h = (tt, (ys, refl))

  -- A block of the right length, stored and published.
  stored-Carries :
      (o : Option ℕ) (w : ℕ) (map : ℕ → ℕ) (xs ys : List ℕ) (rest : Ended) (st : DirStats)
      (q : Priv)
      → length xs ≡ d.block_size
      → Carries (add32 w d.block_size % map_size) ys rest.blocks
      → Carries w
          (xs ++ ys)
          (put k map_size d o
            (record { at = w; bytes = bytes_at (store map w xs) w d.block_size })
            rest
            (stopped (store map w xs) st q)).blocks
  stored-Carries o w map xs ys rest st q e h =
      subst
        (λ (t : List ℕ).
          Carries w (xs ++ ys)
            (put k map_size d o (record { at = w; bytes = t }) rest
              (stopped (store map w xs) st q)).blocks)
        (sym (ap (λ n. bytes_at (store map w xs) w n) (sym e) ∙ bytes_at-store xs map w))
        (put-Carries o w xs ys rest (store map w xs) st q h)

  tx_loop-Carries :
      (rs : List Round) (stream : List ℕ) (wr : ℕ) (map : ℕ → ℕ) (st : DirStats) (p : Priv)
      → length rs * d.block_size ≤ length stream
      → Carries wr stream (tx_loop k map_size d rs stream wr map st p).blocks
  unfolding tx_loop
  tx_loop-Carries [] stream wr map st p h = (tt, (stream, refl))
  tx_loop-Carries (r ∷ rs) stream wr map st p h =
      let (s, xs, rest) = tcp_recv_full d.block_size stream r.answers in
      let (o, q) = driver_tx_put_block k (advanced k map_size d wr) r.call d p in
      let map' = store map wr xs in
      let go =
        tx_loop k map_size d rs rest (advanced k map_size d wr) map' (count_bytes k map_size d st)
          q in
      received-Carries s wr stream
        (put k map_size d o (record { at = wr; bytes = bytes_at map' wr d.block_size }) go
          (stopped map' st q))
        map' st p
        (λ fine.
          let e = tcp_recv_full-ok d.block_size stream r.answers fine in
          subst
            (λ (t : List ℕ).
              Carries wr t
                (put k map_size d o (record { at = wr; bytes = bytes_at map' wr d.block_size }) go
                  (stopped map' st q)).blocks)
            (split e.0 e.1)
            (stored-Carries o wr map xs rest go st q (full e.0) (
              tx_loop-Carries rs rest (advanced k map_size d wr) map' (count_bytes k map_size d st)
                q (left e.1))))
    where
      split :
          {xs rest : List ℕ}
          → xs ≡ take d.block_size stream
          → rest ≡ drop d.block_size stream
          → xs ++ rest ≡ stream
      split e e' = ap₂ (λ x y. x ++ y) e e' ∙ take-append-drop d.block_size stream

      full : {xs : List ℕ} → xs ≡ take d.block_size stream → length xs ≡ d.block_size
      full e = ap length e ∙ omega (arith, length-take d.block_size stream, h)

      left :
          {rest : List ℕ} → rest ≡ drop d.block_size stream → length rs * d.block_size ≤ length rest
      left e =
          subst (λ (t : List ℕ). length rs * d.block_size ≤ length t) (sym e)
            (omega (arith, length-drop d.block_size stream, h))

  -- So many blocks of silence, and then a stream.
  abbrev pub after_silence : ℕ → List ℕ → List ℕ
  after_silence zero stream = stream
  after_silence (suc n) stream = replicate d.block_size 0 ++ after_silence n stream

  prefill_loop-Carries :
      (n : ℕ) (cs : List WriteCall) (stream : List ℕ) (wr : ℕ) (map : ℕ → ℕ) (st : DirStats)
      (p : Priv) (go : ℕ → (ℕ → ℕ) → Priv → Ended)
      → ((wr : ℕ) (map : ℕ → ℕ) (p : Priv) → Carries wr stream (go wr map p).blocks)
      → Carries wr (after_silence n stream) (prefill_loop k map_size d n cs wr map st p go).blocks
  unfolding prefill_loop
  prefill_loop-Carries zero cs stream wr map st p go h = h wr map p
  prefill_loop-Carries (suc n) [] stream wr map st p go h =
      (tt, (after_silence (suc n) stream, refl))
  prefill_loop-Carries (suc n) (c ∷ cs) stream wr map st p go h =
      let zeros = replicate d.block_size 0 in
      let wr' = advanced k map_size d wr in
      let (o, q) = driver_tx_put_block k wr' c d p in
      stored-Carries o wr map zeros (after_silence n stream)
        (prefill_loop k map_size d n cs wr' (store map wr zeros) st q go) st q
        (length-replicate d.block_size 0)
        (prefill_loop-Carries n cs stream wr' (store map wr zeros) st q go h)

  if_enabled-Carries :
      (e : Option ℕ × Priv) (wr : ℕ) (stream : List ℕ) (map : ℕ → ℕ) (st : DirStats)
      (go : Priv → Ended)
      → ((p : Priv) → Carries wr stream (go p).blocks)
      → Carries wr stream (if_enabled k map_size d e map st go).blocks
  if_enabled-Carries (none, p) wr stream map st go h = (tt, (stream, refl))
  if_enabled-Carries (some n, p) wr stream map st go h = h p

  -- Whatever the driver and the socket answer, as long as the client sends a block for each round:
  -- the blocks that a session publishes lie one behind the other from offset 0 on, round the end of
  -- the map, and what the map holds there, at the time each is published, is the front of
  -- `prefill_blocks` blocks of silence and then the client's stream, without a gap.
  pub tx_tcp_session-Carries :
      (stored : Bool) (cs : List WriteCall) (rs : List Round) (stream : List ℕ) (map : ℕ → ℕ)
      (st : DirStats) (p : Priv)
      → length rs * d.block_size ≤ length stream
      → Carries 0
          (after_silence (prefill_blocks d.block_size) stream)
          (tx_tcp_session k map_size d stored cs rs stream map st p).blocks
  unfolding tx_tcp_session
  tx_tcp_session-Carries stored cs rs stream map st p h =
      prefill_loop-Carries (prefill_blocks d.block_size) cs stream 0 map st p
        (λ (wr : ℕ) (map : ℕ → ℕ) (q : Priv).
          if_enabled k map_size d (driver_enable k stored d q) map st
            (λ (p : Priv). tx_loop k map_size d rs stream wr map st p))
        (λ wr map q.
          if_enabled-Carries (driver_enable k stored d q) wr stream map st
            (λ (p : Priv). tx_loop k map_size d rs stream wr map st p)
            (λ p. tx_loop-Carries rs stream wr map st p h))
