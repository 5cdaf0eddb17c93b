-- ===== src/Server/Key.antt =====
-- Server::PeerKey (Server.cpp) tells addresses apart.
use dubuframework.Base.{◌+◌, ◌*◌, ◌/◌, ◌%◌, ◌^◌, ◌<◌, ◌≡◌, arith, bit_or, bit_or-apart}
use dubuframework.Socket.{Addr}
use dubuframework.Server.{peer_key}

-- An address and a port within their types
record IsAddr (addr : Addr) : Type 0 where
  ip : addr.ip < 2 ^ 32
  port : addr.port < 2 ^ 16

-- The key holds the port in its lower 16 bits and the address above them, so it is less than 2 ^ 48
-- and both can be read back from it: different addresses have different keys.
peer_key-apart :
    (addr : Addr)
    → IsAddr addr
    → (peer_key addr < 2 ^ 48)
      × (peer_key addr / 65536 ≡ addr.ip)
      × (peer_key addr % 65536 ≡ addr.port)
unfolding peer_key
peer_key-apart addr v =
    let e : bit_or (addr.ip * 65536) addr.port ≡ addr.ip * 65536 + addr.port =
      bit_or-apart 16 addr.port addr.ip v.port in
    (omega (arith, e, v.ip, v.port), omega (arith, e, v.port), omega (arith, e, v.port))
