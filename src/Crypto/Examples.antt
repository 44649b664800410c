-- ===== src/Crypto/Examples.antt =====
-- Concrete fields for the theorems on the length-value encoding.
use screen_sharing.Prelude.{◌≡◌, refl, List, [], ◌∷◌}
use screen_sharing.Prelude.Bytes.{Bytes}
use screen_sharing.Crypto.Lv.Unambiguous.{lv_cat-injective}

abbrev two_fields : List Bytes
two_fields = (1 ∷ 2 ∷ []) ∷ [] ∷ []

lv_cat-injective_example : two_fields ≡ ((1 ∷ 2 ∷ []) ∷ [] ∷ [])
lv_cat-injective_example = lv_cat-injective two_fields ((1 ∷ 2 ∷ []) ∷ [] ∷ []) refl refl
