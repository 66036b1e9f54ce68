-- ===== src/Txrx/Tests.antt =====
-- The application's theorems at concrete inputs, and runs of its functions.
use zyndra.Base.{
  ℕ, ◌/◌, ◌^◌, ◌≡◌, refl, arith, List, [], ◌∷◌, some, replicate, length, length-replicate,
}
use zyndra.Txrx.Net.Tcp.{Answer, moved, interrupted, ok, tcp_recv_full}
use zyndra.Txrx.Net.Udp.{udp_send_ring, overflow}
use zyndra.Txrx.Net.UdpLaws.{udp_send_ring-overflow}
use zyndra.Txrx.Prbs.{PrbsIq, Luts, prbs_init, prbs_fill_block, fill_loop, copy, prbs_state_from_iq}
use zyndra.Txrx.Prbs.Init.{prbs_lookup-sent}

abbrev answers : List Answer
answers = moved 2 ∷ interrupted ∷ moved 9 ∷ moved 1 ∷ []

recv_runs : (tcp_recv_full 2 (7 ∷ 8 ∷ 9 ∷ []) answers).0 ≡ ok
unfolding tcp_recv_full
recv_runs = refl

-- Not an `abbrev`: its length is known by a lemma.
block : ℕ → List ℕ
block n = replicate n 5

length-block : (n : ℕ) → length (block n) ≡ n
unfolding block
length-block n = length-replicate n 5

udp_send_ring-overflow_example : udp_send_ring (some 64) [] (block 131072) ≡ overflow
udp_send_ring-overflow_example =
    udp_send_ring-overflow [] (block 131072) (omega arith) (omega (arith, length-block 131072)) 64
      (omega (arith, length-block 131072))

abbrev empty_luts : Luts
empty_luts = record { lut = λ n. record { i = 0; q = 0 }; pos = λ n. 0 }

prbs_lookup-sent_example :
    let s = (prbs_init empty_luts).lut 3 in
    (prbs_init empty_luts).pos (prbs_state_from_iq (s.i / 2 ^ 4) (s.q / 2 ^ 4)) ≡ 3
prbs_lookup-sent_example = prbs_lookup-sent empty_luts 3 (omega arith)

abbrev counting : ℕ → PrbsIq
counting n = record { i = n; q = 0 }

-- Round the end of the table.
fill_runs :
    prbs_fill_block counting 2 65534
    ≡ some (record { i = 65534; q = 0 } ∷ record { i = 0; q = 0 } ∷ [], 1)
unfolding prbs_fill_block fill_loop copy
fill_runs = refl
