-- ===== src/Client/Connect.antt =====
-- The attempts of a client to connect.
use dubuframework.Base.{
  ℕ, zero, suc, ◌+◌, ◌-◌, ◌≤◌, ◌≡◌, refl, true, false, length, arith, min, leb, succ32,
}
use native.Mathlib.Decide.{dec_lt}
use dubuframework.Packet.{PacketHeader}
use dubuframework.Socket.{Addr, Net, send_to}
use dubuframework.Messages.{connect_header, send_header}
use dubuframework.Client.{Client, request_connect_no, connect_message, connect}

module _ {S : Type 0} (crc_u32 crc_u8 : ℕ → ℕ → ℕ) (clock : S → ℕ × S) where
  -- Connect, `k` times
  abbrev pub connects : ℕ → Client × Net S → Client × Net S
  connects zero cn = cn
  connects (suc k) cn = connects k (connect crc_u32 crc_u8 clock cn)

  header_sent :
      (fill : PacketHeader → PacketHeader) (target : Addr) (n : Net S)
      → length (send_header crc_u32 crc_u8 fill target n).requests ≡ length n.requests + 1
  unfolding send_header send_to
  header_sent fill target n = omega arith

  -- One attempt
  tried :
      (c : Client) (n : Net S)
      → c.conn_no ≤ request_connect_no
      → let (c', n') = connect crc_u32 crc_u8 clock (c, n) in
        (c'.conn_no ≤ request_connect_no)
        × (c'.conn_no ≡ min (c.conn_no + 1) request_connect_no)
        × (length n'.requests + c.conn_no ≡ length n.requests + c'.conn_no)
  unfolding connect connect_message
  tried c n le = elim (dec_lt c.conn_no request_connect_no) [
    | yes lt ↦
        let t : leb request_connect_no c.conn_no ≡ false = ground arith in
        let e : succ32 c.conn_no ≡ c.conn_no + 1 = omega arith in
        let s = header_sent (connect_header 0) c.addr n in
        rw (t, e) (omega arith, omega arith, omega (arith, s))
    | no ge ↦
        let t : leb request_connect_no c.conn_no ≡ true = ground arith in
        rw t (le, omega arith, refl)
  ]

  -- However often Connect is called, it requests one packet each time until 10 were requested since
  -- the client was made, and none after that.
  connects-bounded :
      (k : ℕ) (c : Client) (n : Net S)
      → c.conn_no ≤ request_connect_no
      → let (c', n') = connects k (c, n) in
        (length n'.requests ≡ length n.requests + min k (request_connect_no - c.conn_no))
        × (c'.conn_no ≡ min (c.conn_no + k) request_connect_no)
  connects-bounded zero c n le = (omega arith, omega (arith, le))
  connects-bounded (suc k) c n le =
      let next = connect crc_u32 crc_u8 clock (c, n) in
      let (le', counted, sent) = tried c n le in
      let (total, number) = connects-bounded k next.0 next.1 le' in
      (omega (arith, total, counted, sent, le), omega (arith, number, counted, le))
