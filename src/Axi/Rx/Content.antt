-- ===== src/Axi/Rx/Content.antt =====
-- The receive path with what is in the ring: from the FPGA's sample stream to the blocks that a
-- program reads from the map, with any number of timer callbacks and reads in between.
use native.Mathlib.Nat.{mod-lt, mod-eq_of_lt, add-mul-mod_self_left, div-add-mod}
use zyndra.Base.{
  ℕ, zero, suc, ◌+◌, ◌-◌, ◌*◌, ◌/◌, ◌%◌, ◌^◌, ◌≤◌, ◌<◌, ◌≡◌, refl, sym, subst, ap, ap₂, ◌∙◌, arith,
  true, false, List, [], ◌∷◌, ◌++◌, concat, lt→leb, dec_lt, append-nil, append_assoc,
}
use zyndra.Ring.Blocks.{mul-le-mul, block-le}
use zyndra.Axi.State.{Priv, Outcome, ret}
use zyndra.Axi.Read.{RxRead, ReadCall, sizeof_rx_read, read}
use zyndra.Axi.Rx.Serve.{read-serves}
use zyndra.Axi.Rx.Overrun.{skipped}
use zyndra.Axi.Rx.Run.{
  Receiver, Step, serve, IsSynced, ring-lt, Step-IsSynced, enabled, Reach-IsSynced, here,
}
use zyndra.Receiver.{bytes_at}

-- What the FPGA promises: of the bytes that it has written, the last ring's worth is in the ring.
abbrev pub HoldsStream : (ℕ → ℕ) → ℕ → ℕ → (ℕ → ℕ) → Type 0
HoldsStream f size written ring = (i : ℕ) → i < written → written ≤ i + size → ring (i % size) ≡ f i

bytes_at-shift :
    (g f : ℕ → ℕ) (a c n : ℕ)
    → ((i : ℕ) → i < n → g (a + i) ≡ f (c + i))
    → bytes_at g a n ≡ bytes_at f c n
unfolding bytes_at
bytes_at-shift g f a c zero h = refl
bytes_at-shift g f a c (suc n) h =
    ap₂ (λ x xs. x ∷ xs) (ap g (omega arith) ∙ h 0 (omega arith) ∙ ap f (omega arith))
      (bytes_at-shift g f (a + 1) (c + 1) n
        (λ i lt. ap g (omega arith) ∙ h (i + 1) (omega arith) ∙ ap f (omega arith)))

pub bytes_at-add :
    (f : ℕ → ℕ) (a m n : ℕ) → bytes_at f a m ++ bytes_at f (a + m) n ≡ bytes_at f a (m + n)
unfolding bytes_at
bytes_at-add f a zero n = ap₂ (bytes_at f) (omega arith) (omega arith)
bytes_at-add f a (suc m) n =
    ap (λ t. f a ∷ t)
      (ap (λ k. bytes_at f (a + 1) m ++ bytes_at f k n) {x = a + suc m} {y = a + 1 + m}
          (omega arith)
        ∙ bytes_at-add f (a + 1) m n)
    ∙ ap (bytes_at f a) {x = suc (m + n)} {y = suc m + n} (omega arith)

pub concat-snoc : (bs : List (List ℕ)) (x : List ℕ) → concat (bs ++ x ∷ []) ≡ concat bs ++ x
concat-snoc [] x = append-nil x
concat-snoc (y ∷ bs) x = ap (λ t. y ++ t) (concat-snoc bs x) ∙ sym (append_assoc y (concat bs) x)

module _ (b n : ℕ) where
  -- A position inside block `k`.
  pub position : (k i : ℕ) → 0 < b → 0 < n → i < b → (k * b + i) % (n * b) ≡ k % n * b + i
  position k i b_pos n_pos lt =
      ap (λ t. t % (n * b)) {x = k * b + i} {y = k % n * b + i + n * b * (k / n)}
        (omega (arith, ap (λ (t : ℕ). t * b) (div-add-mod k n)))
      ∙ (add-mul-mod_self_left (k % n * b + i) (n * b) (k / n)
          ∙ mod-eq_of_lt (omega (arith, block-le b n b_pos n_pos (k % n) (mod-lt k n_pos), lt)))

  -- A block that is written and not yet overwritten is in the ring as it was sent.
  pub block_in_ring :
      (f ring : ℕ → ℕ) (k written : ℕ)
      → 0 < b
      → 0 < n
      → HoldsStream f (n * b) written ring
      → (k + 1) * b ≤ written
      → written ≤ k * b + n * b
      → bytes_at ring (k % n * b) b ≡ bytes_at f (k * b) b
  block_in_ring f ring k written b_pos n_pos holds whole fresh =
      bytes_at-shift ring f (k % n * b) (k * b) b (λ i lt.
        ap ring (sym (position k i b_pos n_pos lt))
        ∙ holds (k * b + i) (omega (arith, whole, lt)) (omega (arith, fresh)))

  -- Executions from `IOCTL_ENABLE` on, and the blocks that a program has taken from the map, oldest
  -- first. `passes` is an FPGA write or a timer callback; `takes` is a call of `read`, with what
  -- the ring holds when the program uses the block: the FPGA is not yet a ring ahead of it.
  pub data Streams (f : ℕ → ℕ) : List (List ℕ) → Receiver → Type 0 where
    begins :
        (p : Priv)
        → 0 < b
        → 0 < n
        → n * b < 2 ^ 31
        → p.rxbuf_size ≡ n * b
        → Streams f [] (enabled b n p)
    passes :
        {bs : List (List ℕ)} {s u : Receiver}
        → Streams f bs s
        → Step b n s u
        → u.passed ≡ s.passed
        → Streams f bs u
    takes :
        {bs : List (List ℕ)} {s : Receiver} (c : ReadCall) (ring : ℕ → ℕ) (r : RxRead)
        → Streams f bs s
        → c.wr_overrun ≡ s.written % (n * b)
        → s.passed < s.counted
        → s.driver.closing ≡ false
        → sizeof_rx_read ≤ c.count
        → c.copied ≡ true
        → s.written < s.passed * b + n * b
        → HoldsStream f (n * b) s.written ring
        → (read b c s.driver).0 ≡ ret r
        → Streams f
            (bs ++ bytes_at ring r.rd b ∷ [])
            (record s { passed = s.passed + 1; driver = (read b c s.driver).1 })

  abbrev rd_of : Outcome RxRead → ℕ
  rd_of (ret r) = r.rd
  rd_of o = 0

  module _ {s : Receiver} (v : IsSynced b n s) (c : ReadCall)
      (at : c.wr_overrun ≡ s.written % (n * b)) (ready : s.passed < s.counted)
      (is_open : s.driver.closing ≡ false) (fits : sizeof_rx_read ≤ c.count)
      (copied : c.copied ≡ true) (fresh : s.written < s.passed * b + n * b) where
    behind : s.counted - s.passed < n
    behind = elim (dec_lt s.counted (s.passed + n)) [
      | yes less ↦ omega (arith, less, ready)
      | no more ↦
          absurd (omega (arith, v.low, fresh, mul-le-mul b (s.passed + n) s.counted (omega arith)))
    ]

    no_skip : skipped b n s.passed s.counted c.wr_overrun ≡ 0
    no_skip = rw (lt→leb n (s.counted - s.passed) behind) refl

    takes-IsSynced :
        IsSynced b n (record s { passed = s.passed + 1; driver = (read b c s.driver).1 })
    takes-IsSynced =
        subst (λ (k : ℕ). IsSynced b n (record s { passed = k; driver = (read b c s.driver).1 }))
          (ap (λ k. s.passed + k + 1) no_skip ∙ omega arith)
          (Step-IsSynced b n (serve s c at ready is_open fits copied) v)

    takes-rd : (r : RxRead) → (read b c s.driver).0 ≡ ret r → r.rd ≡ s.passed % n * b
    takes-rd r e =
        ap rd_of (
          sym e
          ∙ (read-serves c v.inv (subst (λ x. x < n * b) (sym at) (ring-lt b n v)) ready is_open
              fits copied).0)
        ∙ ap (λ k. (s.passed + k) % n * b) no_skip
        ∙ ap (λ k. k % n * b) {x = s.passed + 0} {y = s.passed} (omega arith)

    whole : (s.passed + 1) * b ≤ s.written
    whole = omega (arith, v.low, mul-le-mul b (s.passed + 1) s.counted (omega arith))

  -- In every execution from `IOCTL_ENABLE` on, on a ring of whole blocks below 2^31 bytes, with
  -- FPGA writes, timer callbacks and reads in any order, in which the FPGA stays less than a ring
  -- ahead of the timer and of the block in use, the blocks that the program takes from the map are
  -- together the start of the FPGA's stream: nothing is lost, doubled or torn. The pointers stay in
  -- step as well.
  pub Streams-concat :
      {f : ℕ → ℕ} {bs : List (List ℕ)} {s : Receiver}
      → Streams f bs s
      → IsSynced b n s × (concat bs ≡ bytes_at f 0 (s.passed * b))
  unfolding bytes_at
  Streams-concat {f} (begins p b_pos n_pos fits size) = (
    Reach-IsSynced b n p b_pos n_pos fits size here,
    ap (bytes_at f 0) {x = 0} {y = 0 * b} (omega arith),
  )
  Streams-concat {f} (passes t st same) =
      let (v, e) = Streams-concat t in
      (Step-IsSynced b n st v, e ∙ ap (λ k. bytes_at f 0 (k * b)) (sym same))
  Streams-concat {f} (takes {bs} {s} c ring r t at ready is_open fits copied fresh holds got) =
      let (v, e) = Streams-concat t in
      (
        takes-IsSynced v c at ready is_open fits copied fresh,
        concat-snoc bs (bytes_at ring r.rd b)
            ∙ ap₂ (λ xs ys. xs ++ ys) e
                (ap (λ k. bytes_at ring k b) (takes-rd v c at ready is_open fits copied fresh r got)
                  ∙ block_in_ring f ring s.passed s.written v.inv.block_pos v.inv.ring_pos holds
                      (whole v c at ready is_open fits copied fresh) (omega (arith, fresh)))
            ∙ ap (λ k. bytes_at f 0 (s.passed * b) ++ bytes_at f k b) {x = s.passed * b}
                {y = 0 + s.passed * b} (omega arith)
            ∙ bytes_at-add f 0 (s.passed * b) b
            ∙ ap (bytes_at f 0) {x = s.passed * b + b} {y = (s.passed + 1) * b} (omega arith),
      )
