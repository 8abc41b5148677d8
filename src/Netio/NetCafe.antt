-- ===== src/Netio/NetCafe.antt =====
-- src/protocol/net_cafe.rs: the numbers that open a datagram or a connection, bit patterns of i32.
use scouter_server_rust.Common.{ℕ}

abbrev pub udp_cafe : ℕ
udp_cafe = 0x43414645

abbrev pub udp_cafe_n : ℕ
udp_cafe_n = 0x4341464E

abbrev pub udp_cafe_mtu : ℕ
udp_cafe_mtu = 0x4341464D

abbrev pub udp_java : ℕ
udp_java = 0x4A415641

abbrev pub udp_java_n : ℕ
udp_java_n = 0x4A41564E

abbrev pub udp_java_mtu : ℕ
udp_java_mtu = 0x4A4D5455

abbrev pub tcp_agent : ℕ
tcp_agent = 0xCAFE1001

abbrev pub tcp_agent_v2 : ℕ
tcp_agent_v2 = 0xCAFE1002

abbrev pub tcp_agent_req : ℕ
tcp_agent_req = 0xCAFE1011

abbrev pub tcp_client : ℕ
tcp_client = 0xCAFE2001

abbrev pub tcp_shutdown : ℕ
tcp_shutdown = 0xCAFE1999
