-- ===== src/Relay/Registry/State.antt =====
-- server/src/relay.ts: the relay's state. Sockets are objects with an identity; a Room that the code
-- changes in place is written back under its room id; what is sent and closed is a list of outputs.
use screen_sharing.Prelude.{ℕ, Option, List}
use screen_sharing.Prelude.Dictionary.{Dictionary}
use screen_sharing.Prelude.Bytes.{Bytes}
use screen_sharing.Prelude.Text.{JsString}
use screen_sharing.Relay.Wire.{Role}

abbrev pub handoff_grace_ms : ℕ
handoff_grace_ms = 8_000

pub record Socket : Type 0 where
  pub id : ℕ
  pub ip : JsString

pub record RelayLimits : Type 0 where
  pub max_rooms : ℕ
  pub max_peers_per_room : ℕ
  pub room_creates_per_window : ℕ
  pub joins_per_window : ℕ
  pub rate_window_ms : ℕ

abbrev pub default_limits : RelayLimits
default_limits = record {
  max_rooms = 500;
  max_peers_per_room = 24;
  room_creates_per_window = 10;
  joins_per_window = 40;
  rate_window_ms = 60_000;
}

pub record Room : Type 0 where
  pub room_id : JsString
  pub host_token : JsString
  pub host : Socket
  pub peers : Dictionary ℕ Socket
  pub next_conn_id : ℕ
  pub handoff_deadline : Option ℕ

pub record Attached : Type 0 where
  pub role : Role
  pub room_id : JsString
  pub conn_id : Option ℕ

pub record RateBucket : Type 0 where
  pub creates : List ℕ
  pub joins : List ℕ

pub record Relay : Type 0 where
  pub rooms : Dictionary JsString Room
  pub attached : Dictionary ℕ Attached
  pub rate : Dictionary JsString RateBucket
  pub limits : RelayLimits

pub data Output : Type 0 where
  send : Socket → Bytes → Output
  close : Socket → (code : ℕ) → (reason : JsString) → Output
