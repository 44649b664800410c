-- ===== src/Signaling/Client/Mirror.antt =====
-- The client's list of who is in the room against the host's roster.
use mathlib.Core.List.{Permᴰ}
use screen_sharing.Prelude.{
  ◌≡◌, refl, sym, ap, ap₂, ◌∙◌, subst, Bool, true, false, not, none, some, List, [], ◌∷◌, arith,
  leb→le, Bool-cases, inl, inr, map, keep_if, any, All,
}
use screen_sharing.Prelude.Dictionary.{
  some_eq, Dictionary, get, set, delete, values, IsUnique, Entries,
}
use screen_sharing.Prelude.Sort.{sort, sort-perm, Permᴰ-sym}
use screen_sharing.Prelude.Text.{JsString, str_eq, str_eq_iff, js_string_eq}
use screen_sharing.Signaling.Roster.{Roster, RosterEntry, not_later, snapshot}
use screen_sharing.Signaling.Roster.Order.{IsOrdered}
use screen_sharing.Signaling.Client.{changed_entry}

not_later_total : (a b : RosterEntry) → not_later a b ≡ false → not_later b a ≡ true
not_later_total a b h = ground arith

not_later_trans :
    (a b c : RosterEntry) → not_later a b ≡ true → not_later b c ≡ true → not_later a c ≡ true
not_later_trans a b c h k = ground arith

-- Every entry stands once, under its own id.
pub record IsKeyed (m : Dictionary JsString RosterEntry) : Type 0 where
  pub unique : IsUnique m
  pub own : Entries (λ id e. e.peer_id ≡ id) m

abbrev IsIn : Dictionary JsString RosterEntry → RosterEntry → Type 0
IsIn m e = get e.peer_id m ≡ some e

IsIn-cons :
    (id : JsString) (e x : RosterEntry) (m : Dictionary JsString RosterEntry)
    → get id m ≡ none
    → IsIn m x
    → IsIn ((id, e) ∷ m) x
unfolding get
IsIn-cons id e x m new h = ground (arith, str_eq_iff id x.peer_id, h, new)

All-IsIn_cons :
    (id : JsString) (e : RosterEntry) (m : Dictionary JsString RosterEntry) (xs : List RosterEntry)
    → get id m ≡ none
    → All (IsIn m) xs
    → All (IsIn ((id, e) ∷ m)) xs
All-IsIn_cons id e m [] new h = tt
All-IsIn_cons id e m (x ∷ xs) new h = (IsIn-cons id e x m new h.0, All-IsIn_cons id e m xs new h.1)

values-IsIn : (m : Dictionary JsString RosterEntry) → IsKeyed m → All (IsIn m) (values m)
unfolding get
values-IsIn [] k = tt
values-IsIn ((id, e) ∷ m) k = (
  ground (arith, str_eq_iff id e.peer_id, k.own.0),
  All-IsIn_cons id e m (values m) k.unique.0
      (values-IsIn m (record { unique = k.unique.1; own = k.own.1 })),
)

-- Lists that hold the entries of a roster, in whatever order, are sorted to its snapshot.
pub sort-snapshot :
    (r : Roster) (xs : List RosterEntry)
    → IsOrdered r
    → IsKeyed r.entries
    → Permᴰ xs (values r.entries)
    → sort not_later xs ≡ snapshot r
unfolding snapshot
sort-snapshot r xs o k p = sym (
    sort-perm not_later not_later_total not_later_trans (IsIn r.entries)
      (λ x y hx hy le ge.
        let same : x.peer_id ≡ y.peer_id =
          o.distinct x.peer_id y.peer_id x y hx hy
            (omega (arith, leb→le x.join_seq y.join_seq le, leb→le y.join_seq x.join_seq ge)) in
        some_eq (sym hx ∙ (ap (λ id. get id r.entries) same ∙ hy)))
      (Permᴰ-sym p) (values-IsIn r.entries k))

pub map_unchanged : (xs : List RosterEntry) → map (changed_entry []) xs ≡ xs
map_unchanged [] = refl
map_unchanged (x ∷ xs) = ap (λ l. x ∷ l) (map_unchanged xs)

pub keep_unremoved :
    (xs : List RosterEntry) → keep_if (λ e. not (any (str_eq e.peer_id) [])) xs ≡ xs
keep_unremoved [] = refl
keep_unremoved (x ∷ xs) = ap (λ l. x ∷ l) (keep_unremoved xs)

abbrev pub stays : JsString → RosterEntry → Bool
stays id e = not (any (str_eq e.peer_id) (id ∷ []))

pub values-delete :
    (id : JsString) (m : Dictionary JsString RosterEntry)
    → Entries (λ j e. e.peer_id ≡ j) m
    → keep_if (stays id) (values m) ≡ values (delete id m)
unfolding delete
values-delete id [] h = refl
values-delete id ((j, e) ∷ m) h =
    ground (arith, h.0, str_eq_iff j id, str_eq_iff e.peer_id id, values-delete id m h.1)

untouched :
    (new e : RosterEntry) → str_eq new.peer_id e.peer_id ≡ false → changed_entry (new ∷ []) e ≡ e
untouched new e f = rw f refl

touched :
    (new e : RosterEntry) → str_eq new.peer_id e.peer_id ≡ true → changed_entry (new ∷ []) e ≡ new
touched new e t = rw t refl

-- The key and the entry's id, tested against another id.
own_test :
    (id j : JsString) (e : RosterEntry) (b : Bool)
    → e.peer_id ≡ j
    → str_eq j id ≡ b
    → str_eq id e.peer_id ≡ b
own_test id j e b own h = ground (arith, own, str_eq_iff j id, str_eq_iff id e.peer_id)

map-changed_absent :
    (new : RosterEntry) (m : Dictionary JsString RosterEntry)
    → Entries (λ j e. e.peer_id ≡ j) m
    → get new.peer_id m ≡ none
    → map (changed_entry (new ∷ [])) (values m) ≡ values m
unfolding get
map-changed_absent new [] h k = refl
map-changed_absent new ((j, e) ∷ m) h k = elim (Bool-cases (str_eq j new.peer_id)) [
  | inl t ↦ absurd (none_some (rw t at k))
  | inr f ↦
      ap₂ (λ x l. x ∷ l) (untouched new e (own_test new.peer_id j e false h.0 f))
        (map-changed_absent new m h.1 (rw f at k))
]
  where
    none_some : some e ≡ none → ⊥
    none_some q = cc

pub values-set_old :
    (new : RosterEntry) (m : Dictionary JsString RosterEntry)
    → IsKeyed m
    → (old : RosterEntry) → get new.peer_id m ≡ some old
    → map (changed_entry (new ∷ [])) (values m) ≡ values (set new.peer_id new m)
unfolding get set
values-set_old new [] k old h = absurd cc
values-set_old new ((j, e) ∷ m) k old h = elim (Bool-cases (str_eq j new.peer_id)) [
  | inl t ↦ rw t (
      ap₂ (λ x l. x ∷ l) (touched new e (own_test new.peer_id j e true k.own.0 t))
        (map-changed_absent new m k.own.1
          (subst (λ id. get id m ≡ none) ((str_eq_iff j new.peer_id).0 t) k.unique.0)))
  | inr f ↦ rw f (
      ap₂ (λ x l. x ∷ l) (untouched new e (own_test new.peer_id j e false k.own.0 f))
        (values-set_old new m (record { unique = k.unique.1; own = k.own.1 }) old (rw f at h)))
]
