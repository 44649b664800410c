-- ===== src/Signaling/Roster/Order.antt =====
-- Sequence numbers of the roster's entries: they tell the entries apart, and order the snapshot.
use screen_sharing.Prelude.{◌<◌, ◌≡◌, refl, some, arith, Option-cases, inl, inr}
use screen_sharing.Prelude.Dictionary.{get, set, get-set, get-delete}
use screen_sharing.Prelude.Text.{JsString, str_eq_iff, js_string_eq}
use screen_sharing.Signaling.Roster
use screen_sharing.Signaling.Roster.{
  Roster, RosterEntry, Patch, add, allocate_join_seq, remove, update, patched,
}

-- Every sequence number has been allocated, and no two entries have the same one.
pub record IsOrdered (r : Roster) : Type 0 where
  pub below :
      (id : JsString) (e : RosterEntry) → get id r.entries ≡ some e → e.join_seq < r.next_join_seq
  pub distinct :
      (a b : JsString) (x y : RosterEntry)
      → get a r.entries ≡ some x
      → get b r.entries ≡ some y
      → x.join_seq ≡ y.join_seq
      → a ≡ b

pub new-IsOrdered : (host_entry : RosterEntry) → IsOrdered (Roster.new host_entry)
unfolding Roster.new get
new-IsOrdered host_entry = record {
  below = λ id e h. ground arith;
  distinct = λ a b x y h k s.
      ground (arith, str_eq_iff host_entry.peer_id a, str_eq_iff host_entry.peer_id b);
}

pub add-IsOrdered :
    (entry : RosterEntry) (r : Roster)
    → entry.join_seq ≡ r.next_join_seq
    → IsOrdered r
    → IsOrdered (add entry (allocate_join_seq r).0)
unfolding add allocate_join_seq
add-IsOrdered entry r fresh o = record {
  below = λ id e h. ground (arith, get-set entry.peer_id id entry r.entries, o.below id e, fresh);
  distinct = λ a b x y h k s. ground (
    arith,
    get-set entry.peer_id a entry r.entries,
    get-set entry.peer_id b entry r.entries,
    o.below a x,
    o.below b y,
    str_eq_iff entry.peer_id a,
    str_eq_iff entry.peer_id b,
    fresh,
    o.distinct a b x y,
  );
}

pub remove-IsOrdered : (id : JsString) (r : Roster) → IsOrdered r → IsOrdered (remove id r).0
unfolding remove
remove-IsOrdered id r o = record {
  below = λ j e h. ground (arith, get-delete id j r.entries, o.below j e);
  distinct = λ a b x y h k s.
      ground (arith, get-delete id a r.entries, get-delete id b r.entries, o.distinct a b x y);
}

set_same-IsOrdered :
    (id : JsString) (old new : RosterEntry) (r : Roster)
    → get id r.entries ≡ some old
    → new.join_seq ≡ old.join_seq
    → IsOrdered r
    → IsOrdered (record r { entries = set id new r.entries })
set_same-IsOrdered id old new r there same o = record {
  below =
      λ j e h. ground (arith, get-set id j new r.entries, o.below j e, o.below id old there, same);
  distinct = λ a b x y h k s. ground (
    arith,
    get-set id a new r.entries,
    get-set id b new r.entries,
    str_eq_iff id a,
    str_eq_iff id b,
    same,
    there,
    o.distinct a b x y,
    o.distinct id b old y there,
    o.distinct a id x old,
  );
}

pub update-IsOrdered :
    (id : JsString) (patch : Patch) (r : Roster) → IsOrdered r → IsOrdered (update id patch r).0
unfolding update
update-IsOrdered id patch r o = elim (Option-cases (get id r.entries)) [
  | inl e ↦ rw e o
  | inr (old, e) ↦ rw e (set_same-IsOrdered id old (patched patch old) r e refl o)
]
