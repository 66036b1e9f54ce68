-- ===== src/Txrx/Diag/Tone.antt =====
-- `tx_generate_tone`: one period of a tone, copied over the buffer.
use zyndra.Base.{
  ℕ, zero, suc, ◌+◌, ◌-◌, ◌*◌, ◌/◌, ◌%◌, ◌^◌, ◌≤◌, ◌<◌, ◌≡◌, refl, ap, ◌∙◌, arith, Option, none,
  some, if◌then◌else◌, ltb, leb, ◌&&◌, add32, mul32, sub32, min, dec_lt, lt→ltb, le→ltb,
}
use zyndra.Txrx.Prbs.{update}

-- `TONE_PERIOD`
abbrev pub tone_period : ℕ
tone_period = 64

-- The buffer as its words of 16 bits; `i_of` and `q_of` are what the C library's cos and sin give for
-- each sample of the period, scaled and cut to a word.
module _ (i_of q_of : ℕ → ℕ) where
  unfoldable pub period_loop : ℕ → ℕ → (ℕ → ℕ) → ℕ → ℕ
  period_loop zero i buf = buf
  period_loop (suc k) i buf =
      period_loop k (i + 1) (update (update buf (i * 2) (i_of i)) (i * 2 + 1) (q_of i))

  -- `memcpy` of `len` bytes, an even number, to `off` from the start of the buffer.
  abbrev pub copy_down : (ℕ → ℕ) → ℕ → ℕ → ℕ → ℕ
  copy_down buf off len w =
      if leb (off / 2) w && ltb w (off / 2 + len / 2) then buf (w - off / 2) else buf w

  -- The loop over the rest of the buffer; `none` is the end of the fuel.
  unfoldable pub repeat_loop : ℕ → ℕ → ℕ → (ℕ → ℕ) → Option (ℕ → ℕ)
  repeat_loop zero off total_bytes buf = none
  repeat_loop (suc fuel) off total_bytes buf =
      let period_bytes = tone_period * 4 in
      let chunk = min (sub32 total_bytes off) period_bytes in
      let rest = repeat_loop fuel (add32 off period_bytes) total_bytes (copy_down buf off chunk) in
      if ltb off total_bytes then rest else some buf

  unfoldable pub tx_generate_tone : ℕ → (ℕ → ℕ) → Option (ℕ → ℕ)
  tx_generate_tone num_samples buf =
      repeat_loop (num_samples / tone_period + 2) (tone_period * 4) (mul32 num_samples 4)
        (period_loop tone_period 0 buf)

  -- Word `w` of the endless tone.
  abbrev pub wave : ℕ → ℕ
  wave w = let i = w / 2 % 64 in if ltb (w % 2) 1 then i_of i else q_of i

  wave-even : (i : ℕ) → i < 64 → i_of i ≡ wave (i * 2)
  wave-even i h = ground (arith, h)

  wave-odd : (i : ℕ) → i < 64 → q_of i ≡ wave (i * 2 + 1)
  wave-odd i h = ground (arith, h)

  stored-wave :
      (i v : ℕ) (buf : ℕ → ℕ)
      → i < 64
      → (v < i * 2 → buf v ≡ wave v)
      → v < (i + 1) * 2
      → update (update buf (i * 2) (i_of i)) (i * 2 + 1) (q_of i) v ≡ wave v
  stored-wave i v buf small h lt = ground (arith, wave-even i small, wave-odd i small, h)

  period-wave :
      (k i w : ℕ) (buf : ℕ → ℕ)
      → i + k ≡ 64
      → ((v : ℕ) → v < i * 2 → buf v ≡ wave v)
      → w < 128
      → period_loop k i buf w ≡ wave w
  unfolding period_loop
  period-wave zero i w buf e h lt = h w (omega arith)
  period-wave (suc k) i w buf e h lt =
      period-wave k (i + 1) w (update (update buf (i * 2) (i_of i)) (i * 2 + 1) (q_of i))
        (omega arith) (λ v below. stored-wave i v buf (omega arith) (h v) below) lt

  period-frame : (k i w : ℕ) (buf : ℕ → ℕ) → i + k ≡ 64 → 128 ≤ w → period_loop k i buf w ≡ buf w
  unfolding period_loop
  period-frame zero i w buf e h = refl
  period-frame (suc k) i w buf e h =
      period-frame k (i + 1) w (update (update buf (i * 2) (i_of i)) (i * 2 + 1) (q_of i))
        (omega arith) h
      ∙ ground arith

  -- The first `n` samples of the result are the tone, and the rest is as it was.
  abbrev pub IsTone : ℕ → (ℕ → ℕ) → Option (ℕ → ℕ) → Type 0
  IsTone n buf none = ⊥
  IsTone n buf (some buf') =
      ((w : ℕ) → w < n * 2 → buf' w ≡ wave w) × ((w : ℕ) → n * 2 ≤ w → buf' w ≡ buf w)

  wave-mod : (v w : ℕ) → v % 128 ≡ w % 128 → wave v ≡ wave w
  wave-mod v w e =
      ap (λ (r : ℕ × ℕ). if ltb r.1 1 then i_of r.0 else q_of r.0) {x = (v / 2 % 64, v % 2)}
        {y = (w / 2 % 64, w % 2)} (λ i. (halves i, bits i))
    where
      halves : v / 2 % 64 ≡ w / 2 % 64
      halves = omega (arith, e)

      bits : v % 2 ≡ w % 2
      bits = omega (arith, e)

  IsTone-same :
      (n : ℕ) (buf buf' : ℕ → ℕ) (o : Option (ℕ → ℕ))
      → ((w : ℕ) → n * 2 ≤ w → buf' w ≡ buf w)
      → IsTone n buf' o
      → IsTone n buf o
  IsTone-same n buf buf' none e h = h
  IsTone-same n buf buf' (some r) e h = (h.0, λ w le. h.1 w le ∙ e w le)

  abbrev chunk_at : ℕ → ℕ → ℕ
  chunk_at m n = min (sub32 (n * 4) (m * 256)) 256

  chunk_at-words :
      (m n : ℕ) → m * 256 < n * 4 → n * 4 < 2 ^ 32 → chunk_at m n / 2 ≡ min (n * 2 - m * 128) 128
  chunk_at-words m n lt small = omega arith

  copy_down-wave :
      (m n w : ℕ) (buf : ℕ → ℕ)
      → m * 256 < n * 4
      → n * 4 < 2 ^ 32
      → 1 ≤ m
      → ((v : ℕ) → v < m * 128 → v < n * 2 → buf v ≡ wave v)
      → w < (m + 1) * 128
      → w < n * 2
      → copy_down buf (m * 256) (chunk_at m n) w ≡ wave w
  copy_down-wave m n w buf more small pos filled lt le = elim (dec_lt w (m * 128)) [
    | yes before ↦ ground (arith, filled w before le)
    | no after ↦ ground (
      arith,
      chunk_at-words m n more small,
      filled (w - m * 256 / 2) (omega arith) (omega arith)
          ∙ wave-mod (w - m * 256 / 2) w (omega arith),
    )
  ]

  copy_down-frame :
      (m n w : ℕ) (buf : ℕ → ℕ)
      → m * 256 < n * 4
      → n * 4 < 2 ^ 32
      → n * 2 ≤ w
      → copy_down buf (m * 256) (chunk_at m n) w ≡ buf w
  copy_down-frame m n w buf more small le = ground (arith, chunk_at-words m n more small)

  repeat_loop-IsTone :
      (fuel m n : ℕ) (buf : ℕ → ℕ)
      → n + 64 ≤ (m + fuel) * 64
      → m * 64 < n + 64
      → n * 4 + 256 ≤ 2 ^ 32
      → 1 ≤ m
      → ((w : ℕ) → w < m * 128 → w < n * 2 → buf w ≡ wave w)
      → IsTone n buf (repeat_loop fuel (m * 256) (n * 4) buf)
  unfolding repeat_loop
  repeat_loop-IsTone zero m n buf enough more small pos filled = absurd (omega arith)
  repeat_loop-IsTone (suc fuel) m n buf enough more small pos filled =
      elim (dec_lt (m * 256) (n * 4)) [
        | no done ↦
            rw (le→ltb (m * 256) (n * 4) (omega arith))
              (λ w h. filled w (omega arith) h, λ w h. refl)
        | yes go ↦
            rw (lt→ltb (m * 256) (n * 4) go, round go)
              (IsTone-same n buf (copy_down buf (m * 256) (chunk_at m n))
                (repeat_loop fuel ((m + 1) * 256) (n * 4) (copy_down buf (m * 256) (chunk_at m n)))
                (λ w h. copy_down-frame m n w buf go (omega arith) h)
                (repeat_loop-IsTone fuel (m + 1) n (copy_down buf (m * 256) (chunk_at m n))
                  (omega arith) (omega arith) small (omega arith)
                  (λ w lt h. copy_down-wave m n w buf go (omega arith) pos filled lt h)))
      ]
    where
      round : m * 256 < n * 4 → add32 (m * 256) 256 ≡ (m + 1) * 256
      round go = omega arith

  -- For at least one period, and a buffer at least a period shorter than 4 GiB, the call ends; the
  -- buffer then holds the tone, sample `i` being that of `i % 64`, and nothing behind the samples
  -- asked for is written.
  pub tx_generate_tone-IsTone :
      (n : ℕ) (buf : ℕ → ℕ) → 64 ≤ n → n * 4 + 256 ≤ 2 ^ 32 → IsTone n buf (tx_generate_tone n buf)
  unfolding tx_generate_tone
  tx_generate_tone-IsTone n buf big small = rw bytes (
      IsTone-same n buf (period_loop 64 0 buf)
        (repeat_loop (n / 64 + 2) (1 * 256) (n * 4) (period_loop 64 0 buf))
        (λ w h. period-frame 64 0 w buf refl (omega arith))
        (repeat_loop-IsTone (n / 64 + 2) 1 n (period_loop 64 0 buf) (omega arith) (omega arith)
          small (omega arith)
          (λ w lt h. period-wave 64 0 w buf refl (λ v below. absurd (omega arith)) lt)))
    where
      bytes : mul32 n 4 ≡ n * 4
      bytes = omega arith
