-- ===== src/Election/Examples.antt =====
-- A concrete roster for the theorems on the succession order.
use mathlib.Core.List.{Permᴰ, Memᴰ}
use screen_sharing.Prelude.{◌≡◌, refl, Bool, true, false, some, List, [], ◌∷◌, All}
use screen_sharing.Prelude.Text.{JsString, units, str_eq}
use screen_sharing.Prelude.Sort.{sort}
use screen_sharing.Election.Succession.{
  ElectionEntry, succession_order, designated_heir, eligible, not_worse,
}
use screen_sharing.Election.Succession.Order.{succession_order-perm}
use screen_sharing.Election.Succession.Queue.{designated_heir_best}

abbrev ada : ElectionEntry
ada = record {
  peer_id = units "ada";
  join_seq = 0;
  inbound_verified = true;
  is_host = true;
  connected = true;
}

abbrev bob : ElectionEntry
bob = record {
  peer_id = units "bob";
  join_seq = 1;
  inbound_verified = false;
  is_host = false;
  connected = true;
}

abbrev eve : ElectionEntry
eve = record {
  peer_id = units "eve";
  join_seq = 2;
  inbound_verified = true;
  is_host = false;
  connected = true;
}

abbrev party : List ElectionEntry
party = ada ∷ bob ∷ eve ∷ []

abbrev eve_failed : JsString → Bool
eve_failed id = str_eq id (units "eve")

parties-Permᴰ : Permᴰ party (bob ∷ ada ∷ eve ∷ [])
parties-Permᴰ = Permᴰ.swap refl refl

succession_order-perm_example : succession_order party ≡ succession_order (bob ∷ ada ∷ eve ∷ [])
succession_order-perm_example = succession_order-perm parties-Permᴰ

party_order : succession_order party ≡ units "eve" ∷ units "bob" ∷ []
unfolding succession_order sort not_worse
party_order = refl

eve_heir : designated_heir party ≡ some (units "eve")
unfolding designated_heir
eve_heir = rw party_order refl

designated_heir_best_example :
    (e : ElectionEntry) × (e.peer_id ≡ units "eve")
    × (eligible e ≡ true)
    × Memᴰ e party
    × All (λ x. eligible x ≡ true → not_worse e x ≡ true) party
designated_heir_best_example = designated_heir_best party eve_heir
