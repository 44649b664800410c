-- ===== src/Election/Succession.antt =====
-- src/main/election/succession.ts: the order in which peers may become host. `compareCandidates`
-- returns a number of which the sort reads the sign; the model returns the sign.
pub mod Order
pub mod Queue
use Prim.Native.Nat.{compare, Ordering}
use screen_sharing.Prelude.{
  ℕ, zero, suc, ◌+◌, Bool, true, false, not, ◌&&◌, Option, none, some, List, [], ◌∷◌, map,
  if◌then◌else◌, keep_if,
}
use screen_sharing.Prelude.Text.{JsString, str_eq, str_lt}
use screen_sharing.Prelude.Sort.{sort}
use screen_sharing.Signaling.Roster.{RosterEntry}

pub record ElectionEntry : Type 0 where
  pub peer_id : JsString
  pub join_seq : ℕ
  pub inbound_verified : Bool
  pub is_host : Bool
  pub connected : Bool

-- The two string tests at the end of `compareCandidates`.
abbrev compare_ids : JsString → JsString → Ordering
compare_ids a b =
    if str_lt a b then Ordering.lt else if str_lt b a then Ordering.gt else Ordering.eq

abbrev compare_seqs : ElectionEntry → ElectionEntry → Ordering → Ordering
compare_seqs a b Ordering.lt = Ordering.lt
compare_seqs a b Ordering.eq = compare_ids a.peer_id b.peer_id
compare_seqs a b Ordering.gt = Ordering.gt

abbrev compare_verified : ElectionEntry → ElectionEntry → Bool → Bool → Ordering
compare_verified a b true false = Ordering.lt
compare_verified a b false true = Ordering.gt
compare_verified a b true true = compare_seqs a b (compare a.join_seq b.join_seq)
compare_verified a b false false = compare_seqs a b (compare a.join_seq b.join_seq)

unfoldable pub compare_candidates : ElectionEntry → ElectionEntry → Ordering
compare_candidates a b = compare_verified a b a.inbound_verified b.inbound_verified

-- What `sort` reads of the comparison: `a` may stand before `b`.
unfoldable pub not_worse : ElectionEntry → ElectionEntry → Bool
unfolding compare_candidates
not_worse a b = elim (compare_candidates a b) [ Ordering.gt ↦ false | _ ↦ true ]

abbrev pub eligible : ElectionEntry → Bool
eligible e = not e.is_host && e.connected

-- Ordered list of peerIds eligible to become host, best first.
unfoldable pub succession_order : List ElectionEntry → List JsString
succession_order roster = map (λ e. e.peer_id) (sort not_worse (keep_if eligible roster))

abbrev first : List JsString → Option JsString
first [] = none
first (id ∷ ids) = some id

-- The designated heir: first in line, or null if nobody is eligible.
unfoldable pub designated_heir : List ElectionEntry → Option JsString
designated_heir roster = first (succession_order roster)

-- `find` of the first id that a test admits.
abbrev pub find : (JsString → Bool) → List JsString → Option JsString
find p [] = none
find p (id ∷ ids) = if p id then some id else find p ids

-- Next eligible successor, skipping peers that already tried and failed; `exhausted` is the set's `has`.
unfoldable pub next_successor : List ElectionEntry → (JsString → Bool) → Option JsString
next_successor roster exhausted = find (λ id. not (exhausted id)) (succession_order roster)

abbrev after_one : Option ℕ → Option ℕ
after_one none = none
after_one (some i) = some (suc i)

-- `indexOf`; `none` stands for -1.
abbrev pub index_of : JsString → List JsString → Option ℕ
index_of id [] = none
index_of id (j ∷ ids) = if str_eq j id then some 0 else after_one (index_of id ids)

-- My position in the succession queue, or -1 if I am not eligible.
unfoldable pub succession_index : List ElectionEntry → JsString → Option ℕ
succession_index roster self_peer_id = index_of self_peer_id (succession_order roster)

-- Adapt a protocol roster into election entries.
unfoldable pub election_entries_from_roster : List RosterEntry → List ElectionEntry
election_entries_from_roster roster =
    map
      (λ e. record {
        peer_id = e.peer_id;
        join_seq = e.join_seq;
        is_host = e.is_host;
        inbound_verified = e.inbound_verified;
        connected = true;
      })
      roster
