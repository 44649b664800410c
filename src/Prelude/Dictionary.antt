-- ===== src/Prelude/Dictionary.antt =====
-- JavaScript's `Map` as an association list in insertion order: a `set` on a key that is there keeps
-- its place, any other goes last, and the iteration order of the code is the order of the list.
use Prim.Native.Nat.{◌+◌, ◌≤◌}
use mathlib.Core.Path.{◌≡◌, refl, subst}
use mathlib.Core.Logic.{inl, inr}
use mathlib.Core.Bool.{Bool, true, false}
use mathlib.Core.Option.{Option, none, some}
use mathlib.Core.List.{List, [], ◌∷◌, ◌++◌}
use native.Mathlib.Omega.{arith}
use screen_sharing.Prelude.Tests.{Eq, if◌then◌else◌, beq_refl, Bool-cases}
use screen_sharing.Prelude.Lists.{length}

abbrev pub Dictionary {ℓ κ} : Type ℓ → Type κ → Type (ℓ ⊔ κ)
Dictionary K V = List (K × V)

pub some_eq {ℓ} : {V : Type ℓ} {v w : V} → some v ≡ some w → v ≡ w
some_eq h = cc

abbrev pub is_some {ℓ} : {V : Type ℓ} → Option V → Bool
is_some none = false
is_some (some v) = true

module _ {ℓ κ} {K : Type ℓ} {V : Type κ} where
  abbrev pub values : Dictionary K V → List V
  values [] = []
  values ((k, v) ∷ m) = v ∷ values m

  abbrev pub keys : Dictionary K V → List K
  keys [] = []
  keys ((k, v) ∷ m) = k ∷ keys m

module _ {ℓ κ} {K : Type ℓ} {V : Type κ} ⦃e : Eq K⦄ where
  unfoldable pub get : K → Dictionary K V → Option V
  get k [] = none
  get k ((j, v) ∷ m) = if e.beq j k then some v else get k m

  unfoldable pub set : K → V → Dictionary K V → Dictionary K V
  set k v [] = (k, v) ∷ []
  set k v ((j, w) ∷ m) = if e.beq j k then (j, v) ∷ m else (j, w) ∷ set k v m

  unfoldable pub delete : K → Dictionary K V → Dictionary K V
  delete k [] = []
  delete k ((j, w) ∷ m) = if e.beq j k then delete k m else (j, w) ∷ delete k m

  abbrev pub has : K → Dictionary K V → Bool
  has k m = is_some (get k m)

  pub get-set :
      (k j : K) (v : V) (m : Dictionary K V)
      → get j (set k v m) ≡ (if e.beq k j then some v else get j m)
  unfolding get set
  get-set k j v [] = refl
  get-set k j v ((i, w) ∷ m) =
      ground (
        arith,
        e.beq_iff k j,
        e.beq_iff i k,
        e.beq_iff i j,
        beq_refl k,
        beq_refl j,
        get-set k j v m,
      )

  pub get-set_self : (k : K) (v : V) (m : Dictionary K V) → get k (set k v m) ≡ some v
  get-set_self k v m = rw (get-set k k v m, beq_refl k)

  pub get-delete :
      (k j : K) (m : Dictionary K V) → get j (delete k m) ≡ (if e.beq k j then none else get j m)
  unfolding get delete
  get-delete k j [] = ground arith
  get-delete k j ((i, w) ∷ m) =
      ground (
        arith,
        e.beq_iff k j,
        e.beq_iff i k,
        e.beq_iff i j,
        beq_refl k,
        beq_refl j,
        get-delete k j m,
      )

  pub get-delete_self : (k : K) (m : Dictionary K V) → get k (delete k m) ≡ none
  get-delete_self k m = rw (get-delete k k m, beq_refl k)

  pub length-set_old :
      (k : K) (v : V) (m : Dictionary K V) → has k m ≡ true → length (set k v m) ≡ length m
  unfolding get set
  length-set_old k v [] h = cc
  length-set_old k v ((j, w) ∷ m) h = ground (arith, length-set_old k v m)

  pub length-set_new :
      (k : K) (v : V) (m : Dictionary K V) → has k m ≡ false → length (set k v m) ≡ length m + 1
  unfolding get set
  length-set_new k v [] h = omega arith
  length-set_new k v ((j, w) ∷ m) h = ground (arith, length-set_new k v m)

  pub length-set_le : (k : K) (v : V) (m : Dictionary K V) → length (set k v m) ≤ length m + 1
  unfolding set
  length-set_le k v [] = omega arith
  length-set_le k v ((j, w) ∷ m) = ground (arith, length-set_le k v m)

  pub length-delete_le : (k : K) (m : Dictionary K V) → length (delete k m) ≤ length m
  unfolding delete
  length-delete_le k [] = omega arith
  length-delete_le k ((j, w) ∷ m) = ground (arith, length-delete_le k m)

  -- A property of every entry, kept by `set` and `delete`, and had by what `get` finds.
  abbrev pub Entries {μ} : (K → V → Type μ) → Dictionary K V → Type μ
  Entries P [] = Unit {μ}
  Entries P ((k, v) ∷ m) = P k v × Entries P m

  module _ {μ} (P : K → V → Type μ) where
    pub Entries-set :
        (k : K) (v : V) (m : Dictionary K V)
        → ((j : K) → j ≡ k → P j v)
        → Entries P m
        → Entries P (set k v m)
    unfolding set
    Entries-set k v [] p h = (p k refl, tt)
    Entries-set k v ((j, w) ∷ m) p h = elim (Bool-cases (e.beq j k)) [
      | inl t ↦ rw t (p j ((e.beq_iff j k).0 t), h.1)
      | inr f ↦ rw f (h.0, Entries-set k v m p h.1)
    ]

    pub Entries-delete : (k : K) (m : Dictionary K V) → Entries P m → Entries P (delete k m)
    unfolding delete
    Entries-delete k [] h = tt
    Entries-delete k ((j, w) ∷ m) h = elim (Bool-cases (e.beq j k)) [
      | inl t ↦ rw t (Entries-delete k m h.1)
      | inr f ↦ rw f (h.0, Entries-delete k m h.1)
    ]

    pub Entries-get : (k : K) (v : V) (m : Dictionary K V) → Entries P m → get k m ≡ some v → P k v
    unfolding get
    Entries-get k v [] h q = cc
    Entries-get k v ((j, w) ∷ m) h q = elim (Bool-cases (e.beq j k)) [
      | inl t ↦ subst (λ x. P x v) ((e.beq_iff j k).0 t) (subst (P j) (some_eq (rw t at q)) h.0)
      | inr f ↦ Entries-get k v m h.1 (rw f at q)
    ]

  -- No key stands twice, as in a Map.
  abbrev pub IsUnique : Dictionary K V → Type κ
  IsUnique [] = Unit {κ}
  IsUnique ((k, v) ∷ m) = (get k m ≡ none) × IsUnique m

  pub IsUnique-set : (k : K) (v : V) (m : Dictionary K V) → IsUnique m → IsUnique (set k v m)
  unfolding get set
  IsUnique-set k v [] h = (refl, tt)
  IsUnique-set k v ((j, w) ∷ m) (new, rest) =
      ground (arith, e.beq_iff k j, e.beq_iff j k, get-set k j v m, IsUnique-set k v m rest)

  pub IsUnique-delete : (k : K) (m : Dictionary K V) → IsUnique m → IsUnique (delete k m)
  unfolding get delete
  IsUnique-delete k [] h = tt
  IsUnique-delete k ((j, w) ∷ m) (new, rest) =
      ground (arith, e.beq_iff k j, get-delete k j m, IsUnique-delete k m rest)

  pub values-set_new :
      (k : K) (v : V) (m : Dictionary K V)
      → get k m ≡ none
      → values (set k v m) ≡ values m ++ (v ∷ [])
  unfolding get set
  values-set_new k v [] h = refl
  values-set_new k v ((j, w) ∷ m) h = ground (arith, values-set_new k v m)

  pub delete_absent : (k : K) (m : Dictionary K V) → get k m ≡ none → delete k m ≡ m
  unfolding get delete
  delete_absent k [] h = refl
  delete_absent k ((j, w) ∷ m) h = ground (arith, delete_absent k m)

  pub delete-set_new :
      (k : K) (v : V) (m : Dictionary K V) → get k m ≡ none → delete k (set k v m) ≡ m
  unfolding get set delete
  delete-set_new k v [] h = rw (beq_refl k) refl
  delete-set_new k v ((j, w) ∷ m) h = ground (arith, delete-set_new k v m)
