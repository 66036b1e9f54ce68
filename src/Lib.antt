-- ===== src/Lib.antt =====
-- Zyndra: streaming of radio samples between an AD936x transceiver behind an FPGA and the network.
--
-- The FPGA writes received samples into a ring in memory and sends samples from a second ring. The
-- kernel driver ad936x-axi (yocto/meta-custom/recipes-kernel/ad936x-axi/files/ad936x-axi.c) owns both
-- rings: a timer counts the blocks that have arrived, read() hands out the offset of one block, write()
-- publishes how far the TX ring is filled. The application ad9361-txrx
-- (yocto/meta-custom/recipes-apps/ad9361-txrx/files) maps the rings and moves blocks to and from TCP or
-- UDP sockets in two threads.
--
-- Files:
--   Base            lists, words of 32 and 64 bits, a check of finitely many cases that computes
--   Ring            ringbuf_used of driver.h, and the arithmetic of distances and blocks in a ring
--   Axi/State       struct ad936x_axi and its registers; the effects list holds every register write,
--                   cache operation and wake-up, the newest first
--   Axi/Timer       ad936x_axi_timer
--   Axi/Read        ad936x_axi_read, with its overrun branch as check_overrun
--   Axi/Write       ad936x_axi_write
--   Axi/Control     ad936x_axi_open, _mmap, _ioctl, _release
--   Axi/Api         the file operations and the timer as one transition function
--   Axi/Stats       ad936x_axi_stats_show; none is a division by zero
--   Axi/Probe       ad936x_axi_probe, over the answers of the kernel's services
--   Axi/Rx, Axi/Tx  the theorems on the two rings
--   Txrx/Net        tcp_listen, tcp_accept, tcp_send and tcp_recv_full of net.c over the answers of
--                   the socket calls, and udp_send_ring, whose wrap buffer is explicit
--   Txrx/Prbs       prbs.c
--   Txrx/Session    the two threads of rx.c and tx.c as a step relation on their program counters and
--                   the flag they share
--   Txrx/Verify     the comparison of a block with the PRBS tables, from diag_prbs of diag.c
--   Txrx/Cli        the command line of ad9361_txrx.c
--   Txrx/Rx, Txrx/Tx
--                   the data paths of rx.c and tx.c over the answers of the driver and the sockets
--   Txrx/Main       rx_task, tx_task and the loop of main over the sessions of one direction
--   Txrx/Diag       diag.c: the main loop of diag_prbs over the answers of its reads (Clean, Count), the
--                   feeder thread (Feed), both together (Loop), and the tone (Tone)
--   Txrx/Status     stats.c; none is a division by zero, and a rate is given by the bytes it comes from
--   Txrx/Driver     driver.c, its system calls being the operations of Axi
--   Streamer        the kernel driver yocto/meta-custom/recipes-kernel/ad936x-tcp/files/ad936x-tcp.c:
--                   stream_to_client over the rounds of its loop, in Listen the thread that accepts
--                   clients, in Attach its probe
--   Receiver        yocto/meta-custom/recipes-apps/ad9361-rx/files/ad9361_rx.c: the main loop and the TCP
--                   sender as rounds over the pool of buffers between them
--   Receiver/Udp, Receiver/Reconnect, Receiver/Setup
--                   the UDP sender of ad9361_rx.c as steps of its three inner loops, the TCP sender
--                   when its client goes away, and main up to its loop
--   Qemu            fpga/qemu/qemu-patches/ad936x_axi.c, over a library whose functions are parameters
--   Axi/Rx/Content, Txrx/Rx/Live
--                   the samples themselves: HoldsStream is what the FPGA promises of the ring's content,
--                   and the executions let it write and the timer fire between the reads
--   Axi/Rx/Interleave
--                   read() one access of the shared state at a time, with timer callbacks in between
--   Axi/Tx/Content, Txrx/Tx/Live, Txrx/Tx/Whole
--                   the samples sent: a program stores and publishes blocks while the FPGA sends, and
--                   tx_loop and tx_tcp_session as such a program
--   Txrx/Session/Rounds
--                   the loop of main over sessions with both threads
--   Txrx/Diag/Bench, Txrx/Diag/Dispatch, Txrx/Diag/Stands
--                   diag_membench, what diag_test and diag_loopback print, and the branch of main that
--                   runs a diagnostic, with what is taken and given back
--   Receiver/Tcp    a round of the TCP sender with the socket's answers (Flow: executions from the FPGA's
--                   stream to a client)
--   Receiver/Server, Receiver/Status
--                   the sockets of the senders over all clients, and the statistics thread
--   Streamer/Content
--                   the samples that a client of ad936x-tcp gets
--
-- Values that the hardware, the kernel or the caller supplies (a register that is read, the time, the
-- answer of a socket call) are arguments of the operation that uses them. A call that waits returns an
-- outcome of its own when its condition is false. Words wrap at 2^32 and 2^64 where the source's do.
--
-- Fuel: bisect gets one round more than the length of the chunk, check_loop one round more than the
-- samples of the block, fill_loop one round more than the samples asked for, repeat_loop two more than
-- the whole periods, bench_pass two more than the whole blocks; each round takes at least one sample or
-- halves the chunk, or copies a period or a block, and the theorems on them show that a result is
-- always produced.
--
-- Not modelled: the driver of Analog Devices in recipes-kernel/ad9361 (a third party's), the FPGA's
-- VHDL, the Yocto layers, the socket options and the printing itself, ksock_sendpage of ad936x-tcp.c,
-- which is compiled out, and code that only starts threads. ioctl, mmap, open
-- and release are atomic with respect to the timer and each other. What the driver flushes and writes
-- into a register reaches the FPGA as one step with the call of write.
pub mod Base
pub mod Ring
pub mod Axi
pub mod Txrx
pub mod Streamer
pub mod Receiver
pub mod Qemu
