-- ===== src/Election/Succession/Queue.antt =====
-- Who stands where in the succession queue.
use mathlib.Core.List.{Permᴰ, Memᴰ}
use screen_sharing.Prelude.{
  ℕ, zero, suc, ◌≡◌, ◌↔◌, refl, Bool, true, false, not, none, some, List, [], ◌∷◌, ◌++◌, map, arith,
  keep_if, All, ap, inl, inr, Bool-cases, get_elem?, ◌∙◌,
}
use screen_sharing.Prelude.Text.{JsString, str_eq_iff}
use screen_sharing.Prelude.Sort.{sort, IsSorted, IsSorted-sort, sort-Permᴰ, All-perm, Permᴰ-sym}
use screen_sharing.Election.Succession.{
  ElectionEntry, not_worse, eligible, succession_order, designated_heir, first, next_successor,
  find, succession_index, index_of,
}
use screen_sharing.Election.Succession.Order.{not_worse_total, not_worse_trans, eligible_kept}

mem_kept :
    (e : ElectionEntry) (roster : List ElectionEntry)
    → Memᴰ e (keep_if eligible roster)
    → Memᴰ e roster
mem_kept e [] m = m
mem_kept e (x ∷ xs) m = elim (Bool-cases (eligible x)) [
  | inl t ↦ deeper (mem_kept e xs) (rw t at m)
  | inr f ↦ Memᴰ.tail (mem_kept e xs (rw f at m))
]
  where
    deeper :
        (Memᴰ e (keep_if eligible xs) → Memᴰ e xs)
        → Memᴰ e (x ∷ keep_if eligible xs)
        → Memᴰ e (x ∷ xs)
    deeper ih (Memᴰ.head p) = Memᴰ.head p
    deeper ih (Memᴰ.tail k) = Memᴰ.tail (ih k)

mem_perm : (e : ElectionEntry) {xs ys : List ElectionEntry} → Permᴰ xs ys → Memᴰ e xs → Memᴰ e ys
mem_perm e Permᴰ.nil m = m
mem_perm e (Permᴰ.cons q p) (Memᴰ.head h) = Memᴰ.head (h ∙ q)
mem_perm e (Permᴰ.cons q p) (Memᴰ.tail m) = Memᴰ.tail (mem_perm e p m)
mem_perm e (Permᴰ.swap q r) (Memᴰ.head h) = Memᴰ.tail (Memᴰ.head (h ∙ q))
mem_perm e (Permᴰ.swap q r) (Memᴰ.tail (Memᴰ.head h)) = Memᴰ.head (h ∙ r)
mem_perm e (Permᴰ.swap q r) (Memᴰ.tail (Memᴰ.tail m)) = Memᴰ.tail (Memᴰ.tail m)
mem_perm e (Permᴰ.trans p q) m = mem_perm e q (mem_perm e p m)

queue : List ElectionEntry → List ElectionEntry
queue roster = sort not_worse (keep_if eligible roster)

not_worse_self : (e : ElectionEntry) → not_worse e e ≡ true
not_worse_self e = elim (Bool-cases (not_worse e e)) [ inl t ↦ t | inr f ↦ not_worse_total e e f ]

-- What holds of all that is kept holds of all that is eligible.
All-eligible :
    (P : ElectionEntry → Bool) (roster : List ElectionEntry)
    → All (λ x. P x ≡ true) (keep_if eligible roster)
    → All (λ x. eligible x ≡ true → P x ≡ true) roster
All-eligible P [] h = tt
All-eligible P (x ∷ xs) h = elim (Bool-cases (eligible x)) [
  | inl t ↦ let k = rw t at h in (λ e. k.0, All-eligible P xs k.1)
  | inr f ↦ (λ e. cc, All-eligible P xs (rw f at h))
]

head_of_queue :
    (roster l : List ElectionEntry) {id : JsString}
    → Permᴰ l (keep_if eligible roster)
    → IsSorted not_worse l
    → first (map (λ e. e.peer_id) l) ≡ some id
    → (e : ElectionEntry) × (e.peer_id ≡ id)
      × (eligible e ≡ true)
      × Memᴰ e roster
      × All (λ x. eligible x ≡ true → not_worse e x ≡ true) roster
head_of_queue roster [] p s h = cc
head_of_queue roster (e ∷ es) p (least, s) h = (
  e,
  cc,
  (All-perm not_worse (λ x. eligible x ≡ true) (Permᴰ-sym p) (eligible_kept roster)).0,
  mem_kept e roster (mem_perm e p (Memᴰ.head refl)),
  All-eligible (not_worse e) roster
      (All-perm not_worse (λ x. not_worse e x ≡ true) p (not_worse_self e, least)),
)

-- The designated heir is the peerId of an entry of the roster that is connected and not the host, and
-- that the comparison ranks at or before every other such entry.
pub designated_heir_best :
    (roster : List ElectionEntry) {id : JsString}
    → designated_heir roster ≡ some id
    → (e : ElectionEntry) × (e.peer_id ≡ id)
      × (eligible e ≡ true)
      × Memᴰ e roster
      × All (λ x. eligible x ≡ true → not_worse e x ≡ true) roster
unfolding designated_heir succession_order
designated_heir_best roster h =
    head_of_queue roster (queue roster)
      (unfold queue in sort-Permᴰ not_worse (keep_if eligible roster))
      (unfold queue in
        IsSorted-sort not_worse not_worse_total not_worse_trans (keep_if eligible roster))
      (unfold queue in h)

find_first :
    (p : JsString → Bool) (ids : List JsString) {id : JsString}
    → find p ids ≡ some id
    → (before : List JsString) × ((after : List JsString) × (ids ≡ before ++ (id ∷ after))
        × All (λ j. p j ≡ false) before
        × (p id ≡ true))
find_first p [] h = cc
find_first p (j ∷ ids) {id} h = elim (Bool-cases (p j)) [
  | inl t ↦ let found = rw t at h in ([], (ids, cc, tt, cc))
  | inr f ↦
      let (before, (after, e, skipped, tested)) = find_first p ids (rw f at h) in
      (j ∷ before, (after, ap (λ l. j ∷ l) e, (f, skipped), tested))
]

find-none :
    (p : JsString → Bool) (ids : List JsString) → find p ids ≡ none → All (λ j. p j ≡ false) ids
find-none p [] h = tt
find-none p (j ∷ ids) h = elim (Bool-cases (p j)) [
  | inl t ↦ cc (rw t at h)
  | inr f ↦ (f, find-none p ids (rw f at h))
]

not-true : (b : Bool) → not b ≡ true → b ≡ false
not-true true h = cc
not-true false h = refl

All-exhausted :
    (exhausted : JsString → Bool) (ids : List JsString)
    → All (λ j. not (exhausted j) ≡ false) ids
    → All (λ j. exhausted j ≡ true) ids
All-exhausted exhausted [] h = tt
All-exhausted exhausted (j ∷ ids) h = (ground arith, All-exhausted exhausted ids h.1)

-- The next successor is the first of the succession order that has not been tried: it is not exhausted
-- and all before it are; and there is none only if the whole order is exhausted.
pub next_successor_first :
    (roster : List ElectionEntry) (exhausted : JsString → Bool)
    → ((id : JsString)
        → next_successor roster exhausted ≡ some id
        → (before : List JsString) × ((after : List JsString) × (succession_order roster
              ≡ before ++ (id ∷ after))
            × All (λ j. exhausted j ≡ true) before
            × (exhausted id ≡ false)))
      × (next_successor roster exhausted ≡ none
          → All (λ j. exhausted j ≡ true) (succession_order roster))
unfolding next_successor
next_successor_first roster exhausted = (
  λ id h.
      let (before, (after, e, skipped, tested)) =
        find_first (λ j. not (exhausted j)) (succession_order roster) h in
      (before, (after, e, All-exhausted exhausted before skipped, not-true (exhausted id) tested)),
  λ h.
      All-exhausted exhausted (succession_order roster)
        (find-none (λ j. not (exhausted j)) (succession_order roster) h),
)

index_get :
    (id : JsString) (ids : List JsString) (i : ℕ)
    → index_of id ids ≡ some i
    → get_elem? ids i ≡ some id
index_get id [] i h = cc
index_get id (j ∷ ids) zero h = ground (arith, str_eq_iff j id)
index_get id (j ∷ ids) (suc i) h = ground (arith, str_eq_iff j id, index_get id ids i)

zero_first : (id : JsString) (ids : List JsString) → index_of id ids ≡ some 0 → first ids ≡ some id
zero_first id [] h = cc
zero_first id (j ∷ ids) h = ground (arith, str_eq_iff j id)

first_zero : (id : JsString) (ids : List JsString) → first ids ≡ some id → index_of id ids ≡ some 0
first_zero id [] h = cc
first_zero id (j ∷ ids) h = ground (arith, str_eq_iff j id)

-- A peer's position in the queue, where it has one, is where the order holds its id for the first time;
-- a peer has position 0 exactly when it is the designated heir.
pub succession_index_position :
    (roster : List ElectionEntry) (self : JsString)
    → ((i : ℕ)
        → succession_index roster self ≡ some i
        → get_elem? (succession_order roster) i ≡ some self)
      × ((succession_index roster self ≡ some 0) ↔ (designated_heir roster ≡ some self))
unfolding succession_index designated_heir
succession_index_position roster self = (
  index_get self (succession_order roster),
  (zero_first self (succession_order roster), first_zero self (succession_order roster)),
)
