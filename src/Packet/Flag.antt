-- ===== src/Packet/Flag.antt =====
-- enum PacketHeaderFlag of Packet.h.
use Prim.Native.Nat.{ℕ}

abbrev pub none : ℕ
none = 0b00000000

abbrev pub repeat : ℕ
repeat = 0b00000001

abbrev pub chunk : ℕ
chunk = 0b00000010

abbrev pub channel : ℕ
channel = 0b00000100

abbrev pub channel_mask : ℕ
channel_mask = 0b00111000

abbrev pub ack : ℕ
ack = 0b10000000

abbrev pub ping : ℕ
ping = 0b11000000

abbrev pub pong : ℕ
pong = 0b11100000

abbrev pub session : ℕ
session = 0b11111110

abbrev pub disconnect : ℕ
disconnect = 0b11111111
