-- ===== src/Prelude/Sort.antt =====
-- `Array.prototype.sort`: a stable sort by a comparison, of which only "not greater" is used.
use mathlib.Core.Path.{◌≡◌, refl, sym, ap, ap₂, ◌∙◌, subst}
use mathlib.Core.Bool.{Bool, true, false}
use mathlib.Core.Logic.{inl, inr}
use mathlib.Core.List.{List, [], ◌∷◌, map, Permᴰ}
use native.Mathlib.Omega.{arith}
use screen_sharing.Prelude.Tests.{if◌then◌else◌, Bool-cases}
use screen_sharing.Prelude.Lists.{All, keep_if}

pub Permᴰ-same {ℓ} : {A : Type ℓ} (l : List A) → Permᴰ l l
Permᴰ-same [] = Permᴰ.nil
Permᴰ-same (x ∷ xs) = Permᴰ.cons refl (Permᴰ-same xs)

pub Permᴰ-sym {ℓ} : {A : Type ℓ} {xs ys : List A} → Permᴰ xs ys → Permᴰ ys xs
Permᴰ-sym Permᴰ.nil = Permᴰ.nil
Permᴰ-sym (Permᴰ.cons e p) = Permᴰ.cons (sym e) (Permᴰ-sym p)
Permᴰ-sym (Permᴰ.swap e f) = Permᴰ.swap (sym f) (sym e)
Permᴰ-sym (Permᴰ.trans p q) = Permᴰ.trans (Permᴰ-sym q) (Permᴰ-sym p)

module _ {ℓ} {A : Type ℓ} (p : A → Bool) where
  Permᴰ-keep_if_cons :
      (a b : A) (xs ys : List A)
      → a ≡ b
      → Permᴰ (keep_if p xs) (keep_if p ys)
      → Permᴰ (keep_if p (a ∷ xs)) (keep_if p (b ∷ ys))
  Permᴰ-keep_if_cons a b xs ys e h = elim (Bool-cases (p a)) [
    | inl t ↦ rw (t, subst (λ x. p x ≡ true) e t) (Permᴰ.cons e h)
    | inr f ↦ rw (f, subst (λ x. p x ≡ false) e f) h
  ]

  Permᴰ-keep_if_swap :
      (a b : A) (l : List A) → Permᴰ (keep_if p (a ∷ b ∷ l)) (keep_if p (b ∷ a ∷ l))
  Permᴰ-keep_if_swap a b l = elim (Bool-cases (p a)) [
    | inl t ↦ elim (Bool-cases (p b)) [
      | inl u ↦ rw (t, u) (Permᴰ.swap refl refl)
      | inr v ↦ rw (t, v) (Permᴰ-same (a ∷ keep_if p l))
    ]
    | inr f ↦ rw f (Permᴰ-same (keep_if p (b ∷ l)))
  ]

  pub Permᴰ-keep_if : {xs ys : List A} → Permᴰ xs ys → Permᴰ (keep_if p xs) (keep_if p ys)
  Permᴰ-keep_if Permᴰ.nil = Permᴰ.nil
  Permᴰ-keep_if (Permᴰ.cons {a = a} {b = b} {l₁ = l₁} {l₂ = l₂} e q) =
      Permᴰ-keep_if_cons a b l₁ l₂ e (Permᴰ-keep_if q)
  Permᴰ-keep_if (Permᴰ.swap {a = a} {b = b} {a' = a'} {l = l} e f) =
      subst (λ x. Permᴰ (keep_if p (a ∷ b ∷ l)) (keep_if p (a' ∷ x ∷ l))) e
        (subst (λ x. Permᴰ (keep_if p (a ∷ b ∷ l)) (keep_if p (x ∷ a ∷ l))) f
          (Permᴰ-keep_if_swap a b l))
  Permᴰ-keep_if (Permᴰ.trans q r) = Permᴰ.trans (Permᴰ-keep_if q) (Permᴰ-keep_if r)

pub Permᴰ-map {ℓ κ} :
    {A : Type ℓ} {B : Type κ} (f : A → B) {xs ys : List A}
    → Permᴰ xs ys
    → Permᴰ (map f xs) (map f ys)
Permᴰ-map f Permᴰ.nil = Permᴰ.nil
Permᴰ-map f (Permᴰ.cons e q) = Permᴰ.cons (ap f e) (Permᴰ-map f q)
Permᴰ-map f (Permᴰ.swap e g) = Permᴰ.swap (ap f e) (ap f g)
Permᴰ-map f (Permᴰ.trans q r) = Permᴰ.trans (Permᴰ-map f q) (Permᴰ-map f r)

module _ {ℓ} {A : Type ℓ} (leq : A → A → Bool) where
  unfoldable pub insert : A → List A → List A
  insert x [] = x ∷ []
  insert x (y ∷ ys) = if leq x y then x ∷ y ∷ ys else y ∷ insert x ys

  unfoldable pub sort : List A → List A
  unfolding insert
  sort [] = []
  sort (x ∷ xs) = insert x (sort xs)

  abbrev pub IsSorted : List A → Type 0
  IsSorted [] = Unit {0}
  IsSorted (x ∷ xs) = All (λ y. leq x y ≡ true) xs × IsSorted xs

  insert-Permᴰ : (x : A) (xs : List A) → Permᴰ (insert x xs) (x ∷ xs)
  unfolding insert
  insert-Permᴰ x [] = Permᴰ.cons refl Permᴰ.nil
  insert-Permᴰ x (y ∷ ys) = elim (Bool-cases (leq x y)) [
    | inl t ↦ rw t (Permᴰ-same (x ∷ y ∷ ys))
    | inr f ↦ rw f (Permᴰ.trans (Permᴰ.cons refl (insert-Permᴰ x ys)) (Permᴰ.swap refl refl))
  ]

  -- Sorting loses and adds nothing.
  pub sort-Permᴰ : (xs : List A) → Permᴰ (sort xs) xs
  unfolding sort
  sort-Permᴰ [] = Permᴰ.nil
  sort-Permᴰ (x ∷ xs) = Permᴰ.trans (insert-Permᴰ x (sort xs)) (Permᴰ.cons refl (sort-Permᴰ xs))

  module _ {κ} (P : A → Type κ) where
    pub All-insert : (x : A) (xs : List A) → P x → All P xs → All P (insert x xs)
    unfolding insert
    All-insert x [] p h = (p, tt)
    All-insert x (y ∷ ys) p h = elim (Bool-cases (leq x y)) [
      | inl t ↦ rw t (p, h)
      | inr f ↦ rw f (h.0, All-insert x ys p h.1)
    ]

    pub All-sort : (xs : List A) → All P xs → All P (sort xs)
    unfolding sort
    All-sort [] h = tt
    All-sort (x ∷ xs) h = All-insert x (sort xs) h.0 (All-sort xs h.1)

    pub All-perm : {xs ys : List A} → Permᴰ xs ys → All P xs → All P ys
    All-perm Permᴰ.nil h = tt
    All-perm (Permᴰ.cons e p) h = (subst P e h.0, All-perm p h.1)
    All-perm (Permᴰ.swap e f) h = (subst P f h.1.0, (subst P e h.0, h.1.1))
    All-perm (Permᴰ.trans p q) h = All-perm q (All-perm p h)

  module _ (total : (x y : A) → leq x y ≡ false → leq y x ≡ true)
      (trans : (x y z : A) → leq x y ≡ true → leq y z ≡ true → leq x z ≡ true) where
    pub IsSorted-insert : (x : A) (xs : List A) → IsSorted xs → IsSorted (insert x xs)
    unfolding insert
    IsSorted-insert x [] h = (tt, tt)
    IsSorted-insert x (y ∷ ys) h = elim (Bool-cases (leq x y)) [
      | inl t ↦ rw t ((t, below x y t ys h.0), h)
      | inr f ↦
          rw f (All-insert (λ z. leq y z ≡ true) x ys (total x y f) h.0, IsSorted-insert x ys h.1)
    ]
      where
        below :
            (a b : A)
            → leq a b ≡ true
            → (zs : List A) → All (λ z. leq b z ≡ true) zs
            → All (λ z. leq a z ≡ true) zs
        below a b t [] h = tt
        below a b t (z ∷ zs) h = (trans a b z t h.0, below a b t zs h.1)

    pub IsSorted-sort : (xs : List A) → IsSorted (sort xs)
    unfolding sort
    IsSorted-sort [] = tt
    IsSorted-sort (x ∷ xs) = IsSorted-insert x (sort xs) (IsSorted-sort xs)

    -- Two elements that tie only when they are one may be inserted in either order.
    insert_comm :
        (x y : A) (xs : List A)
        → (leq x y ≡ true → leq y x ≡ true → x ≡ y)
        → insert x (insert y xs) ≡ insert y (insert x xs)
    unfolding insert
    insert_comm x y [] anti = ground (arith, total x y, total y x, anti)
    insert_comm x y (z ∷ zs) anti = ground (
      arith,
      total x y,
      total y x,
      anti,
      trans x y z,
      trans y x z,
      total x z,
      total y z,
      insert_comm x y zs anti,
    )

    -- The order of the input does not matter to the sorted list.
    pub sort-perm {κ} :
        (P : A → Type κ)
        → ((x y : A) → P x → P y → leq x y ≡ true → leq y x ≡ true → x ≡ y)
        → {xs ys : List A} → Permᴰ xs ys
        → All P xs
        → sort xs ≡ sort ys
    unfolding sort
    sort-perm P anti Permᴰ.nil h = refl
    sort-perm P anti (Permᴰ.cons e p) h = ap₂ insert e (sort-perm P anti p h.1)
    sort-perm P anti (Permᴰ.swap {a = a} {b = b} {l = l} e f) h =
        insert_comm a b (sort l) (anti a b h.0 h.1.0) ∙ (λ i. insert (f i) (insert (e i) (sort l)))
    sort-perm P anti (Permᴰ.trans p q) h =
        sort-perm P anti p h ∙ sort-perm P anti q (All-perm P p h)
