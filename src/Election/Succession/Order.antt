-- ===== src/Election/Succession/Order.antt =====
-- The comparison is a linear order on the eligible entries, so every participant computes one list.
use mathlib.Core.List.{Permᴰ}
use screen_sharing.Prelude.{
  ◌≡◌, true, false, List, [], ◌∷◌, map, arith, keep_if, All, ap, inl, inr, Bool-cases,
}
use screen_sharing.Prelude.Text.{str_lt_asymm, str_lt_connected, str_ge_trans}
use screen_sharing.Prelude.Sort.{sort-perm, Permᴰ-keep_if}
use screen_sharing.Election.Succession.{ElectionEntry, not_worse, eligible, succession_order}

pub not_worse_total : (a b : ElectionEntry) → not_worse a b ≡ false → not_worse b a ≡ true
unfolding not_worse
not_worse_total a b h =
    ground (arith, str_lt_asymm a.peer_id b.peer_id, str_lt_asymm b.peer_id a.peer_id)

pub not_worse_trans :
    (a b c : ElectionEntry) → not_worse a b ≡ true → not_worse b c ≡ true → not_worse a c ≡ true
unfolding not_worse
not_worse_trans a b c h k = ground (
  arith,
  str_ge_trans a.peer_id b.peer_id c.peer_id,
  str_lt_asymm a.peer_id b.peer_id,
  str_lt_asymm b.peer_id c.peer_id,
  str_lt_asymm a.peer_id c.peer_id,
)

-- Eligible entries that tie are one entry.
not_worse_antisymm :
    (a b : ElectionEntry)
    → eligible a ≡ true
    → eligible b ≡ true
    → not_worse a b ≡ true
    → not_worse b a ≡ true
    → a ≡ b
unfolding not_worse
not_worse_antisymm a b ea eb h k = ground (
  arith,
  str_lt_connected a.peer_id b.peer_id,
  str_lt_asymm a.peer_id b.peer_id,
  str_lt_asymm b.peer_id a.peer_id,
)

pub eligible_kept :
    (roster : List ElectionEntry) → All (λ e. eligible e ≡ true) (keep_if eligible roster)
eligible_kept [] = tt
eligible_kept (e ∷ es) = elim (Bool-cases (eligible e)) [
  | inl t ↦ rw t (t, eligible_kept es)
  | inr f ↦ rw f (eligible_kept es)
]

-- Zero coordination: participants whose rosters hold the same entries, in whatever order, compute the
-- same succession order.
pub succession_order-perm :
    {xs ys : List ElectionEntry} → Permᴰ xs ys → succession_order xs ≡ succession_order ys
unfolding succession_order
succession_order-perm {xs} p = ap (map (λ e. e.peer_id)) (
    sort-perm not_worse not_worse_total not_worse_trans (λ e. eligible e ≡ true) not_worse_antisymm
      (Permᴰ-keep_if eligible p) (eligible_kept xs))
