-- ===== src/Tcp.antt =====
-- net/tcp.c and include/levos/tcp.h: the connections of the TCP layer. A received segment and a sent
-- one are records of the header fields in host byte order; routing, the Ethernet and IP headers and
-- the checksums of a packet are not part of the model. What `malloc` gives while packets are built is
-- a list of answers; the lookup in the hash table of connections is an argument.
pub mod State
pub mod Send
pub mod Receive
pub mod Connect
pub mod Transitions
pub mod Data
pub mod Stream
pub mod Handshake
pub mod Old
mod Tests
