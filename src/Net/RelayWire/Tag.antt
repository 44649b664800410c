-- ===== src/Net/RelayWire/Tag.antt =====
-- The type bytes of src/main/net/relay-wire.ts.
use Prim.Native.Nat.{ℕ}

abbrev pub hello : ℕ
hello = 0x01

abbrev pub ready : ℕ
ready = 0x02

abbrev pub reject : ℕ
reject = 0x03

abbrev pub peer_up : ℕ
peer_up = 0x04

abbrev pub peer_down : ℕ
peer_down = 0x05

abbrev pub host_gone : ℕ
host_gone = 0x06

abbrev pub kick : ℕ
kick = 0x07

abbrev pub handoff : ℕ
handoff = 0x08

abbrev pub host_claimed : ℕ
host_claimed = 0x09

abbrev pub data_h : ℕ
data_h = 0x10

abbrev pub data_p : ℕ
data_p = 0x11

abbrev pub ping : ℕ
ping = 0x20

abbrev pub pong : ℕ
pong = 0x21
