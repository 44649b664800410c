-- ===== src/Signaling/Roster.antt =====
-- src/main/signaling/roster.ts: the host's view of who is in the room. `toLowerCase` is the parameter
-- `lower`.
pub mod Order
use screen_sharing.Prelude.{
  ℕ, ◌+◌, Bool, false, ◌||◌, Option, none, some, List, [], ◌∷◌, leb, length,
}
use screen_sharing.Prelude.Dictionary.{Dictionary, get, set, delete, has, values}
use screen_sharing.Prelude.Text.{JsString, js_string_eq, str_eq}
use screen_sharing.Prelude.Sort.{sort}

pub record InboundEndpoint : Type 0 where
  pub address : JsString
  pub port : ℕ

pub record Publishing : Type 0 where
  pub video : Bool
  pub audio : Bool
  pub stream_id : JsString

pub record RosterEntry : Type 0 where
  pub peer_id : JsString
  pub nickname : JsString
  pub join_seq : ℕ
  pub is_host : Bool
  pub inbound_verified : Bool
  pub inbound_endpoint : Option InboundEndpoint
  pub publishing : Option Publishing

pub record Roster : Type 0 where
  pub entries : Dictionary JsString RosterEntry
  pub next_join_seq : ℕ

-- Seed the host's own entry (joinSeq 0); the entry's own joinSeq is overwritten.
unfoldable pub new : RosterEntry → Roster
new host_entry = record {
  entries = (host_entry.peer_id, record host_entry { join_seq = 0 }) ∷ [];
  next_join_seq = 1;
}

unfoldable pub allocate_join_seq : Roster → Roster × ℕ
allocate_join_seq r = (record r { next_join_seq = r.next_join_seq + 1 }, r.next_join_seq)

unfoldable pub has_peer : JsString → Roster → Bool
has_peer peer_id r = has peer_id r.entries

abbrev any_nickname : (JsString → JsString) → JsString → Dictionary JsString RosterEntry → Bool
any_nickname lower nickname [] = false
any_nickname lower nickname ((k, e) ∷ rest) =
    str_eq (lower e.nickname) (lower nickname) || any_nickname lower nickname rest

unfoldable pub has_nickname : (JsString → JsString) → JsString → Roster → Bool
has_nickname lower nickname r = any_nickname lower nickname r.entries

unfoldable pub size : Roster → ℕ
size r = length r.entries

unfoldable pub add : RosterEntry → Roster → Roster
add entry r = record r { entries = set entry.peer_id entry r.entries }

unfoldable pub remove : JsString → Roster → Roster × Option RosterEntry
remove peer_id r = (record r { entries = delete peer_id r.entries }, get peer_id r.entries)

-- `{ ...current, ...patch }` for the fields that a patch gives.
pub record Patch : Type 0 where
  pub inbound_verified : Option Bool
  pub inbound_endpoint : Option (Option InboundEndpoint)
  pub publishing : Option (Option Publishing)

abbrev or_current {ℓ} : {A : Type ℓ} → Option A → A → A
or_current none a = a
or_current (some b) a = b

abbrev pub patched : Patch → RosterEntry → RosterEntry
patched patch e = record e {
  inbound_verified = or_current patch.inbound_verified e.inbound_verified;
  inbound_endpoint = or_current patch.inbound_endpoint e.inbound_endpoint;
  publishing = or_current patch.publishing e.publishing;
}

abbrev update_found : JsString → Patch → Roster → Option RosterEntry → Roster × Option RosterEntry
update_found peer_id patch r none = (r, none)
update_found peer_id patch r (some current) = (
  record r { entries = set peer_id (patched patch current) r.entries },
  some (patched patch current),
)

unfoldable pub update : JsString → Patch → Roster → Roster × Option RosterEntry
update peer_id patch r = update_found peer_id patch r (get peer_id r.entries)

-- `a.joinSeq - b.joinSeq <= 0`
abbrev pub not_later : RosterEntry → RosterEntry → Bool
not_later a b = leb a.join_seq b.join_seq

unfoldable pub snapshot : Roster → List RosterEntry
snapshot r = sort not_later (values r.entries)
