-- ===== src/Prelude/Affix.antt =====
-- `startsWith` and `endsWith` on JavaScript strings.
use mathlib.Core.Path.{◌≡◌, refl, sym, ap, ◌∙◌}
use mathlib.Core.Logic.{inl, inr}
use mathlib.Core.Bool.{Bool, true, false, ◌&&◌, ◌||◌}
use mathlib.Core.List.{[], ◌∷◌, ◌++◌}
use native.Mathlib.Omega.{arith}
use screen_sharing.Prelude.Tests.{◌==◌, if◌then◌else◌, Bool-cases}
use screen_sharing.Prelude.Text.{JsString, str_eq, str_eq→eq, str_eq_self}

-- `s.startsWith(prefix)`
abbrev pub starts_with : JsString → JsString → Bool
starts_with [] s = true
starts_with (x ∷ xs) [] = false
starts_with (x ∷ xs) (y ∷ ys) = x == y && starts_with xs ys

-- `s.endsWith(suffix)`
abbrev pub ends_with : JsString → JsString → Bool
ends_with suffix [] = str_eq suffix []
ends_with suffix (c ∷ s) = str_eq suffix (c ∷ s) || ends_with suffix s

pub starts_with-append : (a b : JsString) → starts_with a (a ++ b) ≡ true
starts_with-append [] b = refl
starts_with-append (x ∷ xs) b = ground (arith, starts_with-append xs b)

pub ends_with_self : (s : JsString) → ends_with s s ≡ true
ends_with_self [] = refl
ends_with_self (c ∷ s) = ground (arith, str_eq_self (c ∷ s))

pub ends_with-append : (a b : JsString) → ends_with b (a ++ b) ≡ true
ends_with-append [] b = ends_with_self b
ends_with-append (x ∷ xs) b = ground (arith, ends_with-append xs b)

-- A string that ends with another is something followed by it.
pub ends_with→append :
    (suffix s : JsString) → ends_with suffix s ≡ true → (a : JsString) × (s ≡ a ++ suffix)
ends_with→append suffix [] h = ([], sym (str_eq→eq suffix [] h))
ends_with→append suffix (c ∷ s) h = elim (Bool-cases (str_eq suffix (c ∷ s))) [
  | inl t ↦ ([], sym (str_eq→eq suffix (c ∷ s) t))
  | inr f ↦ let (a, e) = ends_with→append suffix s (ground arith) in (c ∷ a, cc)
]

abbrev pub has_colon : JsString → Bool
has_colon [] = false
has_colon (c ∷ s) = c == b':' || has_colon s

-- What stands behind the last colon.
abbrev behind_colon : JsString → JsString
behind_colon [] = []
behind_colon (c ∷ s) =
    let rest = behind_colon s in if has_colon s then rest else if c == b':' then s else c ∷ s

has_colon-append : (a b : JsString) → has_colon b ≡ true → has_colon (a ++ b) ≡ true
has_colon-append [] b h = h
has_colon-append (x ∷ xs) b h = ground (arith, has_colon-append xs b h)

behind_colon-append :
    (a b : JsString) → has_colon b ≡ false → behind_colon (a ++ (b':' ∷ b':' ∷ b)) ≡ b
behind_colon-append [] b h = ground arith
behind_colon-append (x ∷ xs) b h =
    ground (arith, behind_colon-append xs b h, has_colon-append xs (b':' ∷ b':' ∷ b) refl)

-- Two colons part a string in one way, if none follows them.
pub colons_part :
    (a b c d : JsString)
    → has_colon b ≡ false
    → has_colon d ≡ false
    → a ++ (b':' ∷ b':' ∷ b) ≡ c ++ (b':' ∷ b':' ∷ d)
    → b ≡ d
colons_part a b c d hb hd e =
    sym (behind_colon-append a b hb) ∙ ap behind_colon e ∙ behind_colon-append c d hd
