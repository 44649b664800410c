-- ===== src/Signaling/Client/Following.antt =====
-- A client that hears every `roster_update` of its host.
use mathlib.Core.List.{Permᴰ}
use mathlib.Core.List.Permᴰ
use screen_sharing.Prelude.{
  ℕ, ◌≡◌, refl, sym, ap, ◌∙◌, subst, not, Option, none, some, List, [], ◌∷◌, ◌++◌, Option-cases,
  inl, inr, map, keep_if, any,
}
use mathlib.Core.List.{append-nil}
use screen_sharing.Prelude.Dictionary.{
  get, set, values, IsUnique-set, IsUnique-delete, Entries-set, Entries-delete, Entries-get,
  values-set_new, delete_absent,
}
use screen_sharing.Prelude.Sort.{sort, sort-Permᴰ, Permᴰ-keep_if, Permᴰ-map}
use screen_sharing.Prelude.Text.{JsString, str_eq, js_string_eq}
use screen_sharing.Protocol.{Body, Envelope, roster_update}
use screen_sharing.Signaling.Roster
use screen_sharing.Signaling.Roster.{Roster, RosterEntry, Patch, patched, not_later, snapshot}
use screen_sharing.Signaling.Roster.Order.{
  IsOrdered, add-IsOrdered, remove-IsOrdered, update-IsOrdered,
}
use screen_sharing.Signaling.Server.{new_entry}
use screen_sharing.Signaling.Client.{Client, changed_entry, updated_roster, on_message}
use screen_sharing.Signaling.Client.Mirror.{
  IsKeyed, stays, sort-snapshot, map_unchanged, keep_unremoved, values-delete, values-set_old,
}

-- What changes the host's roster: an admission, a departure, a probe.
pub data Change : Type 0 where
  arrives : (peer_id nickname : JsString) → Change
  leaves : (peer_id : JsString) → Change
  changes : (peer_id : JsString) → Patch → Change

abbrev pub arrived : JsString → JsString → Roster → RosterEntry
arrived peer_id nickname r = new_entry peer_id nickname (Roster.allocate_join_seq r).1

unfoldable pub after : Change → Roster → Roster
unfolding Roster.allocate_join_seq
after (arrives peer_id nickname) r =
    Roster.add (arrived peer_id nickname r) (Roster.allocate_join_seq r).0
after (leaves peer_id) r = (Roster.remove peer_id r).0
after (changes peer_id patch) r = (Roster.update peer_id patch r).0

abbrev gone_news : JsString → Option RosterEntry → List Body
gone_news peer_id none = []
gone_news peer_id (some e) = roster_update [] (peer_id ∷ []) [] ∷ []

abbrev changed_news : Option RosterEntry → List Body
changed_news none = []
changed_news (some e) = roster_update [] [] (e ∷ []) ∷ []

-- What the host broadcasts about it.
unfoldable pub news : Change → Roster → List Body
unfolding Roster.allocate_join_seq
news (arrives peer_id nickname) r = roster_update (arrived peer_id nickname r ∷ []) [] [] ∷ []
news (leaves peer_id) r = gone_news peer_id (Roster.remove peer_id r).1
news (changes peer_id patch) r = changed_news (Roster.update peer_id patch r).1

abbrev enveloped : Body → Envelope
enveloped body = record { v = 1; epoch = 0; seq = 0; sender = []; body = body }

abbrev pub hears : ℕ → List Body → Client → Client
hears now [] c = c
hears now (body ∷ bodies) c = hears now bodies (on_message now (enveloped body) c).0

-- The host's roster and a client after successive changes, all of which the client hears of.
unfoldable pub follow : ℕ → List Change → Roster → Client → Roster × Client
follow now [] r c = (r, c)
follow now (ch ∷ chs) r c = follow now chs (after ch r) (hears now (news ch r) c)

-- Every id that is drawn for a new peer is not in the roster at that time.
abbrev pub IsFresh : List Change → Roster → Type 0
IsFresh [] r = Unit
IsFresh (arrives peer_id nickname ∷ chs) r =
    (get peer_id r.entries ≡ none) × IsFresh chs (after (arrives peer_id nickname) r)
IsFresh (leaves peer_id ∷ chs) r = IsFresh chs (after (leaves peer_id) r)
IsFresh (changes peer_id patch ∷ chs) r = IsFresh chs (after (changes peer_id patch) r)

pub record IsKnown (r : Roster) : Type 0 where
  pub ordered : IsOrdered r
  pub keyed : IsKeyed r.entries

arrives_heard :
    (now : ℕ) (id nickname : JsString) (r : Roster) (c : Client)
    → IsKnown r
    → IsKnown (after (arrives id nickname) r)
    → get id r.entries ≡ none
    → c.roster ≡ snapshot r
    → (hears now (news (arrives id nickname) r) c).roster ≡ snapshot (after (arrives id nickname) r)
unfolding news on_message updated_roster snapshot after Roster.add Roster.allocate_join_seq
arrives_heard now id nickname r c k k' new same =
    ap (sort not_later) shown
    ∙ sort-snapshot (after (arrives id nickname) r) (c.roster ++ (entry ∷ [])) k'.ordered k'.keyed (
        subst (λ l. Permᴰ (c.roster ++ (entry ∷ [])) l)
          (sym (values-set_new id entry r.entries new))
          (Permᴰ.append_right (entry ∷ []) (
            subst (λ l. Permᴰ l (values r.entries)) (sym same)
              (sort-Permᴰ not_later (values r.entries)))))
  where
    entry : RosterEntry
    entry = arrived id nickname r

    shown :
        map (changed_entry []) (keep_if (λ e. not (any (str_eq e.peer_id) [])) c.roster)
          ++ (entry ∷ [])
        ≡ c.roster ++ (entry ∷ [])
    shown = ap (λ l. l ++ (entry ∷ [])) (map_unchanged _ ∙ keep_unremoved c.roster)

leaves_heard :
    (now : ℕ) (id : JsString) (r : Roster) (c : Client)
    → IsKnown r
    → IsKnown (after (leaves id) r)
    → c.roster ≡ snapshot r
    → (hears now (news (leaves id) r) c).roster ≡ snapshot (after (leaves id) r)
unfolding news on_message updated_roster snapshot after Roster.remove
leaves_heard now id r c k k' same = elim (Option-cases (get id r.entries)) [
  | inl e ↦ rw (e, delete_absent id r.entries e) same
  | inr (old, e) ↦ rw e (
      ap (sort not_later) (append-nil _ ∙ map_unchanged _)
      ∙ sort-snapshot (after (leaves id) r) (keep_if (stays id) c.roster) k'.ordered k'.keyed (
          subst (λ l. Permᴰ (keep_if (stays id) c.roster) l)
            (values-delete id r.entries k.keyed.own)
            (Permᴰ-keep_if (stays id) (
              subst (λ l. Permᴰ l (values r.entries)) (sym same)
                (sort-Permᴰ not_later (values r.entries))))))
]

update_absent :
    (id : JsString) (patch : Patch) (r : Roster)
    → get id r.entries ≡ none
    → Roster.update id patch r ≡ (r, none)
unfolding Roster.update
update_absent id patch r e = rw e refl

abbrev repatched : JsString → Patch → RosterEntry → Roster → Roster
repatched id patch old r = record r { entries = set id (patched patch old) r.entries }

update_there :
    (id : JsString) (patch : Patch) (old : RosterEntry) (r : Roster)
    → get id r.entries ≡ some old
    → Roster.update id patch r ≡ (repatched id patch old r, some (patched patch old))
unfolding Roster.update
update_there id patch old r e = rw e refl

patched_heard :
    (now : ℕ) (id : JsString) (patch : Patch) (old : RosterEntry) (r : Roster) (c : Client)
    → get id r.entries ≡ some old
    → IsKnown r
    → IsKnown (repatched id patch old r)
    → c.roster ≡ snapshot r
    → (hears now (changed_news (some (patched patch old))) c).roster
      ≡ snapshot (repatched id patch old r)
unfolding on_message updated_roster snapshot
patched_heard now id patch old r c there k k' same =
    ap (sort not_later)
      (append-nil _ ∙ ap (map (changed_entry (new ∷ []))) (keep_unremoved c.roster))
    ∙ sort-snapshot (repatched id patch old r) (map (changed_entry (new ∷ [])) c.roster) k'.ordered
        k'.keyed
        (subst (λ l. Permᴰ (map (changed_entry (new ∷ [])) c.roster) l) replaced
          (Permᴰ-map (changed_entry (new ∷ [])) (
            subst (λ l. Permᴰ l (values r.entries)) (sym same)
              (sort-Permᴰ not_later (values r.entries)))))
  where
    new : RosterEntry
    new = patched patch old

    own : old.peer_id ≡ id
    own = Entries-get _ id old r.entries k.keyed.own there

    replaced : map (changed_entry (new ∷ [])) (values r.entries) ≡ values (set id new r.entries)
    replaced =
        values-set_old new r.entries k.keyed old
          (subst (λ j. get j r.entries ≡ some old) (sym own) there)
        ∙ ap (λ j. values (set j new r.entries)) own

changes_heard :
    (now : ℕ) (id : JsString) (patch : Patch) (r : Roster) (c : Client)
    → IsKnown r
    → IsKnown (after (changes id patch) r)
    → c.roster ≡ snapshot r
    → (hears now (news (changes id patch) r) c).roster ≡ snapshot (after (changes id patch) r)
unfolding news after
changes_heard now id patch r c k k' same = elim (Option-cases (get id r.entries)) [
  | inl e ↦ subst heard (sym (update_absent id patch r e)) same
  | inr (old, e) ↦
      let changed = update_there id patch old r e in
      subst heard (sym changed)
        (patched_heard now id patch old r c e k (subst (λ u. IsKnown u.0) changed k') same)
]
  where
    heard : Roster × Option RosterEntry → Type 0
    heard u = (hears now (changed_news u.1) c).roster ≡ snapshot u.0

after-IsKnown : (ch : Change) (r : Roster) → IsKnown r → IsKnown (after ch r)
unfolding after Roster.add Roster.allocate_join_seq Roster.remove
after-IsKnown (arrives id nickname) r k = record {
  ordered = add-IsOrdered (arrived id nickname r) r refl k.ordered;
  keyed = record {
    unique = IsUnique-set id (arrived id nickname r) r.entries k.keyed.unique;
    own = Entries-set _ id (arrived id nickname r) r.entries (λ j e. sym e) k.keyed.own;
  };
}
after-IsKnown (leaves id) r k = record {
  ordered = remove-IsOrdered id r k.ordered;
  keyed = record {
    unique = IsUnique-delete id r.entries k.keyed.unique;
    own = Entries-delete _ id r.entries k.keyed.own;
  };
}
after-IsKnown (changes id patch) r k = record {
  ordered = update-IsOrdered id patch r k.ordered;
  keyed = elim (Option-cases (get id r.entries)) [
    | inl e ↦ subst (λ u. IsKeyed u.0.entries) (sym (update_absent id patch r e)) k.keyed
    | inr (old, e) ↦
        subst (λ u. IsKeyed u.0.entries) (sym (update_there id patch old r e))
          (record {
            unique = IsUnique-set id (patched patch old) r.entries k.keyed.unique;
            own =
                Entries-set _ id (patched patch old) r.entries
                  (λ j same. Entries-get _ id old r.entries k.keyed.own e ∙ sym same) k.keyed.own;
          })
  ];
}

-- A client whose list is the host's snapshot (as `joined` gives it), and which hears every update that the
-- host broadcasts, has exactly the host's snapshot after any sequence of admissions, departures and changes
-- of entries, if every id drawn for a new peer is not in the roster at that time: with the same entries, in
-- the same order.
pub follow_lem :
    (now : ℕ) (chs : List Change) (r : Roster) (c : Client)
    → IsKnown r
    → IsFresh chs r
    → c.roster ≡ snapshot r
    → let (r', c') = follow now chs r c in c'.roster ≡ snapshot r'
unfolding follow
follow_lem now [] r c k f same = same
follow_lem now (arrives id nickname ∷ chs) r c k (new, f) same =
    let k' = after-IsKnown (arrives id nickname) r k in
    follow_lem now chs _ _ k' f (arrives_heard now id nickname r c k k' new same)
follow_lem now (leaves id ∷ chs) r c k f same =
    let k' = after-IsKnown (leaves id) r k in
    follow_lem now chs _ _ k' f (leaves_heard now id r c k k' same)
follow_lem now (changes id patch ∷ chs) r c k f same =
    let k' = after-IsKnown (changes id patch) r k in
    follow_lem now chs _ _ k' f (changes_heard now id patch r c k k' same)
