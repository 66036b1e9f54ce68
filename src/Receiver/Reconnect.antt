-- ===== src/Receiver/Reconnect.antt =====
-- A client that goes away, and the next one.
use zyndra.Base.{
  ℕ, ◌+◌, ◌-◌, ◌%◌, ◌==◌, ◌≡◌, ◌≢◌, refl, arith, List, ◌∷◌, Option, none, some, if◌then◌else◌,
  false, add32,
}
use zyndra.Receiver.Slots.{Stores}
use zyndra.Receiver.{Pool, transmit}

-- A round of `transmit_thread_tcp` whose send fails, up to the first round for the next client: the
-- slot is given back, the inner loop is left, and the next client starts with `buf_nr` 0.
unfoldable pub lose_client : Pool → Option Pool
lose_client s =
    if s.slot_used == 0
    then none
    else some (record s { slot_used = s.slot_used - 1; slot_free = s.slot_free + 1; out_nr = 0 })

-- With at least two blocks in the pool, of which the second differs from what buffer 0 holds, a
-- client that goes away takes the first, and the next client is not sent the second.
pub transmit-lose_client :
    (cnt b size : ℕ) (s : Pool) (x y : List ℕ) (q : List (List ℕ))
    → Stores cnt b size s.out_nr 0 s (x ∷ y ∷ q)
    → s.slots 0 ≢ y
    → (t : Pool) × (z : List ℕ) × (u : Pool) × (lose_client s ≡ some t)
      × (transmit cnt b size t ≡ some (z, u))
      × (z ≢ y)
unfolding lose_client transmit
transmit-lose_client cnt b size s x y q v other = (
  record s { slot_used = s.slot_used - 1; slot_free = s.slot_free + 1; out_nr = 0 },
  s.slots 0,
  record s {
    slot_used = s.slot_used - 1 - 1;
    slot_free = s.slot_free + 1 + 1;
    out_nr = (0 + 1) % cnt;
    send_cnt = add32 s.send_cnt 1;
  },
  rw first refl,
  rw second refl,
  other,
)
  where
    first : (s.slot_used == 0) ≡ false
    first = ground (arith, v.used)

    second : (s.slot_used - 1 == 0) ≡ false
    second = ground (arith, v.used)
