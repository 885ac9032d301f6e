-- ===== src/Protocol.antt =====
-- The packed structures of 20100117_RouterAssign_1/router/sr_protocol.h as views of a block of
-- bytes: one child for each structure, over the interface of `Struct`.
pub mod Struct
pub mod Ether
pub mod Ip
pub mod Icmp
pub mod IcmpT3
pub mod Arp
