-- ===== src/Prelude/Json/Concrete.antt =====
-- A concrete codec that meets what the programs rely on of JSON, to evaluate examples with: each part is
-- written behind its length.
use screen_sharing.Prelude.Lists.{length, take, drop, take-append_length, drop-append_length}
use screen_sharing.Prelude.Text.{JsString, units}
use screen_sharing.Prelude.Bytes.{Bytes}
use screen_sharing.Prelude.Json.{
  Json, JsonValue, Fields, Scalar, number, text, null_scalar, other, object,
}
use Prim.Native.Nat.{ℕ, zero, suc, ◌<◌}
use mathlib.Core.Path.{◌≡◌, refl}
use mathlib.Core.Option.{Option, none, some}
use mathlib.Core.List.{[], ◌∷◌, ◌++◌}
use native.Mathlib.Omega.{arith}

print_scalar : Scalar → Bytes
print_scalar (number n) = 0 ∷ n ∷ []
print_scalar (text s) = 1 ∷ length s ∷ s
print_scalar null_scalar = 2 ∷ []
print_scalar (other k) = 3 ∷ k ∷ []

read_scalar : Bytes → Option (Scalar × Bytes)
read_scalar [] = none
read_scalar (zero ∷ []) = none
read_scalar (zero ∷ n ∷ rest) = some (number n, rest)
read_scalar (suc zero ∷ []) = none
read_scalar (suc zero ∷ n ∷ rest) = some (text (take n rest), drop n rest)
read_scalar (suc (suc zero) ∷ rest) = some (null_scalar, rest)
read_scalar (suc (suc (suc k)) ∷ []) = none
read_scalar (suc (suc (suc k)) ∷ n ∷ rest) = some (other n, rest)

read_scalar-print :
    (s : Scalar) (rest : Bytes) → read_scalar (print_scalar s ++ rest) ≡ some (s, rest)
unfolding read_scalar print_scalar
read_scalar-print (number n) rest = refl
read_scalar-print (text s) rest = rw (take-append_length s rest, drop-append_length s rest)
read_scalar-print null_scalar rest = refl
read_scalar-print (other k) rest = refl

print_fields : Fields → Bytes
unfolding print_scalar
print_fields [] = []
print_fields ((k, v) ∷ fs) = length k ∷ (k ++ (print_scalar v ++ print_fields fs))

read_fields : ℕ → Bytes → Option Fields
unfolding read_scalar
read_fields zero buf = some []
read_fields (suc n) [] = none
read_fields (suc n) (l ∷ buf) = elim (read_scalar (drop l buf)) [
  | none ↦ none
  | some (v, rest) ↦ elim (read_fields n rest) [
    | none ↦ none
    | some fs ↦ some ((take l buf, v) ∷ fs)
  ]
]

read_fields-print : (fs : Fields) → read_fields (length fs) (print_fields fs) ≡ some fs
unfolding read_fields print_fields
read_fields-print [] = refl
read_fields-print ((k, v) ∷ fs) = ground (
  arith,
  take-append_length k (print_scalar v ++ print_fields fs),
  drop-append_length k (print_scalar v ++ print_fields fs),
  read_scalar-print v (print_fields fs),
  read_fields-print fs,
)

unfoldable pub stringify : Fields → Bytes
unfolding print_fields
stringify fs = length fs ∷ print_fields fs

as_object : Option Fields → Option JsonValue
as_object none = none
as_object (some fs) = some (object fs)

unfoldable pub parse : Bytes → Option JsonValue
unfolding read_fields as_object
parse [] = none
parse (n ∷ buf) = as_object (read_fields n buf)

unfoldable pub to_string : Scalar → JsString
to_string (number n) = n ∷ []
to_string (text s) = s
to_string null_scalar = units "null"
to_string (other k) = units "[object Object]"

pub parse-stringify : (fs : Fields) → parse (stringify fs) ≡ some (object fs)
unfolding parse stringify
parse-stringify fs = rw (read_fields-print fs)

pub stringify_nonempty : (fs : Fields) → 0 < length (stringify fs)
unfolding stringify
stringify_nonempty fs = omega arith

pub to_string-text : (s : JsString) → to_string (text s) ≡ s
unfolding to_string
to_string-text s = refl

abbrev pub concrete_json : Json
unfolding stringify parse to_string
concrete_json = record {
  stringify = stringify;
  parse = parse;
  to_string = to_string;
  parse-stringify = parse-stringify;
  stringify_nonempty = stringify_nonempty;
  to_string-text = to_string-text;
}
