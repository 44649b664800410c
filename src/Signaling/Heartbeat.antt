-- ===== src/Signaling/Heartbeat.antt =====
-- src/main/signaling/heartbeat.ts: liveness of one connection. The clock and the random nonce are
-- arguments; the two callbacks are outputs.
pub mod Liveness
use screen_sharing.Prelude.{
  ℕ, ◌+◌, Bool, true, false, not, ◌||◌, Option, none, some, List, [], ◌∷◌, leb, ◌==◌, if◌then◌else◌,
  max,
}

pub record Heartbeat : Type 0 where
  pub max_missed : ℕ
  pub missed : ℕ
  pub outstanding : Option ℕ
  pub last_pong_at : ℕ
  pub dead : Bool
  pub started : Bool

pub data Output : Type 0 where
  send_ping : (nonce sent_at : ℕ) → Output
  on_dead : Output

unfoldable pub new : ℕ → Heartbeat
new max_missed = record {
  max_missed = max 1 max_missed;
  missed = 0;
  outstanding = none;
  last_pong_at = 0;
  dead = false;
  started = false;
}

-- The end of `tick`: a fresh ping.
abbrev ping_again : ℕ → ℕ → Heartbeat → Heartbeat × List Output
ping_again nonce now h = (record h { outstanding = some nonce }, send_ping nonce now ∷ [])

-- One more tick without an answer, then either death or a fresh ping.
abbrev miss : ℕ → ℕ → Heartbeat → Heartbeat × List Output
miss nonce now h =
    if leb h.max_missed (h.missed + 1)
    then (record h { missed = h.missed + 1; dead = true }, on_dead ∷ [])
    else ping_again nonce now (record h { missed = h.missed + 1 })

abbrev tick_live : ℕ → ℕ → Heartbeat → Option ℕ → Heartbeat × List Output
tick_live nonce now h none = ping_again nonce now h
tick_live nonce now h (some waiting) = miss nonce now h

-- Call on the heartbeat interval.
unfoldable pub tick : ℕ → ℕ → Heartbeat → Heartbeat × List Output
tick nonce now h = if h.dead || not h.started then (h, []) else tick_live nonce now h h.outstanding

unfoldable pub start : ℕ → ℕ → Heartbeat → Heartbeat × List Output
unfolding tick
start nonce now h = tick nonce now (record h { started = true; last_pong_at = now })

abbrev answers : ℕ → Option ℕ → Bool
answers nonce none = false
answers nonce (some waiting) = nonce == waiting

-- Forward every received pong here.
unfoldable pub on_pong : ℕ → ℕ → Heartbeat → Heartbeat
on_pong nonce now h =
    if h.dead
    then h
    else if answers nonce h.outstanding
    then record h { outstanding = none; missed = 0; last_pong_at = now }
    else h

unfoldable pub stop : Heartbeat → Heartbeat
stop h = record h { started = false }
