-- ===== src/Receiver/Udp.antt =====
-- The UDP sender of ad9361_rx.c, which sends the pool's buffers in batches.
mod Batches
pub mod Given
pub mod Order
use mathlib.Core.Option
use zyndra.Base.{
  ℕ, zero, suc, ◌+◌, ◌-◌, ◌%◌, ◌==◌, List, [], ◌∷◌, ◌++◌, map, take, length, if◌then◌else◌, Option,
  none, some, add32,
}
use zyndra.Receiver.{Pool, receive}

-- `UDP_BATCH`
abbrev pub udp_batch : ℕ
udp_batch = 32

-- The pool; the slots that `iovs` points to, in order; and how often `sem_post` is still to be
-- called.
pub record Sender : Type 0 where
  pub pool : Pool
  pub iovs : List ℕ
  pub posts : ℕ

-- One round of the inner loop before `sendmmsg`: waits for a slot in use, and points to it.
unfoldable pub take_slot : ℕ → Sender → Option Sender
take_slot buf_cnt s =
    if s.pool.slot_used == 0
    then none
    else some (record s {
      pool = record s.pool {
        slot_used = s.pool.slot_used - 1;
        out_nr = (s.pool.out_nr + 1) % buf_cnt;
      };
      iovs = s.iovs ++ s.pool.out_nr ∷ [];
    })

-- A call of `sendmmsg`: the datagrams that it is given, and those that it sends.
pub record Batch : Type 0 where
  pub given : List (List ℕ)
  pub went : List (List ℕ)

-- The answer of `sendmmsg` is the number of datagrams that it sends, or none for -1.
unfoldable pub sent_of : Option ℕ → List (List ℕ) → List (List ℕ)
sent_of none msgs = []
sent_of (some n) msgs = take n msgs

-- `sendmmsg`: the datagrams are what the slots hold now. Its answer is not looked at.
unfoldable pub send_batch : Option ℕ → Sender → List Batch × Sender
send_batch answer s =
    let msgs = map s.pool.slots s.iovs in
    (
      record { given = msgs; went = sent_of answer msgs } ∷ [],
      record s { iovs = []; posts = udp_batch },
    )

-- One `sem_post`; the counter follows the last.
unfoldable pub post_slot : ℕ → Sender → Sender
post_slot left s = record s {
  pool = record s.pool {
    slot_free = s.pool.slot_free + 1;
    send_cnt = if left == 0 then add32 s.pool.send_cnt udp_batch else s.pool.send_cnt;
  };
  posts = left;
}

-- One step of `transmit_thread_udp`: its call of `sendmmsg`, if it makes one, and the state, or none
-- where it waits.
unfoldable pub transmit_udp : ℕ → Option ℕ → ℕ → Sender → Option (List Batch × Sender)
transmit_udp buf_cnt answer (suc left) s = some ([], post_slot left s)
transmit_udp buf_cnt answer zero s =
    if length s.iovs == udp_batch
    then some (send_batch answer s)
    else Option.map (λ (t : Sender). ([], t)) (take_slot buf_cnt s)

module _ (buf_cnt buf_size rx_buf_size : ℕ) where
  -- A step of either thread; the sender's with the answer of `sendmmsg`, where it comes to that.
  pub data Event : Type 0 where
    receives : ℕ → (ℕ → ℕ) → Event
    transmits : Option ℕ → Event

  unfoldable pub receive_into : ℕ → (ℕ → ℕ) → Sender → Sender
  receive_into wr ring s = record s { pool = receive buf_cnt buf_size rx_buf_size wr ring s.pool }

  -- The calls of `sendmmsg`, oldest first, in an order of steps.
  unfoldable pub run : List Event → Sender → List Batch × Sender
  run [] s = ([], s)
  run (receives wr ring ∷ es) s = run es (receive_into wr ring s)
  run (transmits answer ∷ es) s = elim (transmit_udp buf_cnt answer s.posts s) [
    | none ↦ run es s
    | some (xs, t) ↦ (let (calls, u) = run es t in (xs ++ calls, u))
  ]
