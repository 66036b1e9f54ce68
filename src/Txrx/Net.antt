-- ===== src/Txrx/Net.antt =====
-- net.c: whole-buffer TCP transfers and the UDP packetiser.
pub mod Tcp
pub mod TcpLaws
pub mod Udp
pub mod Listen
pub mod UdpLaws
