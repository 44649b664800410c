-- ===== src/Sfu/MediaPlane/Directives.antt =====
-- The quality directives that the media plane sends meet the schema that their receivers parse them with.
use screen_sharing.Prelude.{
  ℕ, zero, suc, ◌+◌, ◌*◌, ◌/◌, ◌≤◌, ◌≡◌, true, List, [], ◌∷◌, ◌++◌, ◌==◌, arith, All, Bool-cases,
  inl, inr,
}
use screen_sharing.Prelude.Dictionary.{Dictionary, Entries}
use screen_sharing.Prelude.Text.{JsString, js_string_eq}
use screen_sharing.Protocol.Schema.{body_ok, has_between, quality_directive_ok}
use screen_sharing.Sfu.Governor
use screen_sharing.Sfu.Governor.{
  Governor, StreamState, Reason, Directive, directive, evaluate_all, ladder_at,
}
use screen_sharing.Sfu.MediaPlane.{
  MediaPlane, Output, broadcast, send_to, effect, to_wire, directives, run_governor,
}

-- A message that its receivers' schema accepts.
abbrev pub IsAccepted : Output → Type 0
IsAccepted (broadcast body) = body_ok body ≡ true
IsAccepted (send_to peer_id body) = body_ok body ≡ true
IsAccepted (effect o) = Unit {0}

abbrev InRange : ℕ → Governor.QualityLevel → Type 0
InRange base l =
    ((base * l.kbps_percent + 50) / 100 ≤ 20_000)
    × (l.max_fps ≤ 120)
    × (10 ≤ l.scale_down_tenths)
    × (l.scale_down_tenths ≤ 80)

ladder_at-InRange : (base i : ℕ) → base ≤ 20_000 → InRange base (ladder_at i)
ladder_at-InRange base zero h = (omega arith, omega arith, omega arith, omega arith)
ladder_at-InRange base (suc zero) h = (omega arith, omega arith, omega arith, omega arith)
ladder_at-InRange base (suc (suc zero)) h = (omega arith, omega arith, omega arith, omega arith)
ladder_at-InRange base (suc (suc (suc zero))) h =
    (omega arith, omega arith, omega arith, omega arith)
ladder_at-InRange base (suc (suc (suc (suc zero)))) h =
    (omega arith, omega arith, omega arith, omega arith)
ladder_at-InRange base (suc (suc (suc (suc (suc i))))) h =
    (omega arith, omega arith, omega arith, omega arith)

-- A stream under an id that the schema admits.
abbrev pub IsNamed : JsString → StreamState → Type 0
IsNamed id s = has_between 64 id ≡ true

module _ (g : Governor) (base_ok : g.base_kbps ≤ 20_000) where
  directive-ok :
      (id : JsString) (s : StreamState) (reason : Reason)
      → has_between 64 id ≡ true
      → quality_directive_ok (to_wire (directive g id s reason)) ≡ true
  unfolding to_wire directive
  directive-ok id s reason named =
      let (kbps, fps, low, high) = ladder_at-InRange g.base_kbps s.level base_ok in
      ground (arith, kbps, fps, low, high)

  directives-append :
      (xs ys : List Directive)
      → All IsAccepted (directives xs)
      → All IsAccepted (directives ys)
      → All IsAccepted (directives (xs ++ ys))
  directives-append [] ys hx hy = hy
  directives-append (x ∷ xs) ys (h, hx) hy = (h, directives-append xs ys hx hy)

  emits-IsAccepted :
      (id : JsString) (s s' : StreamState)
      → has_between 64 id ≡ true
      → All IsAccepted (directives (Governor.emits g id s s'))
  unfolding body_ok
  emits-IsAccepted id s s' named = elim (Bool-cases (s'.level == s.level)) [
    | inl t ↦ rw t tt
    | inr f ↦ rw f (directive-ok id s' s'.last_reason named, tt)
  ]

  evaluate_all-IsAccepted :
      (m : Dictionary JsString StreamState)
      → Entries IsNamed m
      → All IsAccepted (directives (evaluate_all g m).1)
  unfolding evaluate_all
  evaluate_all-IsAccepted [] named = tt
  evaluate_all-IsAccepted ((id, s) ∷ m) (named, rest) =
      directives-append (Governor.emits g id s (Governor.evaluate_stream g s)) (evaluate_all g m).1
        (emits-IsAccepted id s (Governor.evaluate_stream g s) named)
        (evaluate_all-IsAccepted m rest)

-- For a bitrate of at most 20,000 kbps and stream ids of 1 to 64 code units, every directive that the
-- governor's timer sends, at whatever rung a stream is, is accepted by the schema of its receiver.
pub run_governor-IsAccepted :
    (m : MediaPlane)
    → m.governor.base_kbps ≤ 20_000
    → Entries IsNamed m.governor.streams
    → All IsAccepted (run_governor m).1
unfolding run_governor Governor.evaluate
run_governor-IsAccepted m base named =
    evaluate_all-IsAccepted m.governor base m.governor.streams named
