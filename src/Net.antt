-- ===== src/Net.antt =====
-- kernel/net/net.c: the network stack.
mod State
mod Sums
mod Defs
mod Checksum
mod Arp
mod Accept
mod Ping
mod Verify
mod Tests
