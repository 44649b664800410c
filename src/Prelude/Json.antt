-- ===== src/Prelude/Json.antt =====
-- `JSON.stringify` and `JSON.parse` on the flat objects that the programs exchange: what they rely on,
-- as a parameter. Numbers are the non-negative integers; `other` stands for any further value.
pub mod Concrete
use mathlib.Core.Path.{◌≡◌}
use mathlib.Core.Option.{Option, none, some}
use Prim.Native.Nat.{ℕ, ◌<◌}
use screen_sharing.Prelude.Lists.{length}
use screen_sharing.Prelude.Dictionary.{Dictionary}
use screen_sharing.Prelude.Bytes.{Bytes}
use screen_sharing.Prelude.Text.{JsString}

pub data Scalar : Type 0 where
  number : ℕ → Scalar
  text : JsString → Scalar
  null_scalar : Scalar
  other : ℕ → Scalar

abbrev pub Fields : Type 0
Fields = Dictionary JsString Scalar

-- A parsed value: an object with its own properties (a primitive has none), or `null`.
pub data JsonValue : Type 0 where
  object : Fields → JsonValue
  null_value : JsonValue

pub record Json : Type 0 where
  -- JSON.stringify, then UTF-8
  pub stringify : Fields → Bytes
  -- UTF-8, then JSON.parse; `none` if it throws
  pub parse : Bytes → Option JsonValue
  -- String(value)
  pub to_string : Scalar → JsString
  pub parse-stringify : (o : Fields) → parse (stringify o) ≡ some (object o)
  pub stringify_nonempty : (o : Fields) → 0 < length (stringify o)
  pub to_string-text : (s : JsString) → to_string (text s) ≡ s
