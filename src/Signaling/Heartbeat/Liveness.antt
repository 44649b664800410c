-- ===== src/Signaling/Heartbeat/Liveness.antt =====
-- When a connection is declared dead, and when not.
use screen_sharing.Prelude.{
  ℕ, suc, ◌+◌, ◌≤◌, ◌<◌, ◌≡◌, ◌≢◌, refl, true, false, none, some, List, [], ◌∷◌, ◌++◌, leb,
  if◌then◌else◌, arith, inl, inr, ◌∙◌, ap, length, Bool-cases,
}
use screen_sharing.Signaling.Heartbeat.{
  Heartbeat, Output, send_ping, on_dead, new, tick, start, on_pong, stop,
}

pub data Event : Type 0 where
  starts ticks pongs : (nonce now : ℕ) → Event
  stops : Event

unfoldable pub step : Heartbeat → Event → Heartbeat × List Output
step h (starts nonce now) = start nonce now h
step h (ticks nonce now) = tick nonce now h
step h (pongs nonce now) = (on_pong nonce now h, [])
step h stops = (stop h, [])

unfoldable pub run : Heartbeat → List Event → Heartbeat × List Output
run h [] = (h, [])
run h (e ∷ es) = ((run (step h e).0 es).0, (step h e).1 ++ (run (step h e).0 es).1)

-- How often the owner is told that the peer is dead.
abbrev pub deaths : List Output → ℕ
deaths [] = 0
deaths (send_ping nonce now ∷ os) = deaths os
deaths (on_dead ∷ os) = suc (deaths os)

deaths-append : (xs ys : List Output) → deaths (xs ++ ys) ≡ deaths xs + deaths ys
deaths-append [] ys = omega arith
deaths-append (send_ping nonce now ∷ xs) ys = deaths-append xs ys
deaths-append (on_dead ∷ xs) ys = omega (arith, deaths-append xs ys)

abbrev dead_count : Heartbeat → ℕ
dead_count h = if h.dead then 1 else 0

-- A step tells of a death exactly when it brings it about, and death is final.
deaths-step :
    (h : Heartbeat) (e : Event) → deaths (step h e).1 + dead_count h ≡ dead_count (step h e).0
unfolding step start tick on_pong stop
deaths-step h e = ground arith

deaths-run :
    (h : Heartbeat) (es : List Event) → deaths (run h es).1 + dead_count h ≡ dead_count (run h es).0
unfolding run
deaths-run h [] = omega arith
deaths-run h (e ∷ es) = omega (
  arith,
  deaths-append (step h e).1 (run (step h e).0 es).1,
  deaths-step h e,
  deaths-run (step h e).0 es,
)

-- Over any events from a new heartbeat, `onDead` is called at most once, and it has been called exactly
-- when the peer counts as dead.
pub on_dead_once :
    (max_missed : ℕ) (es : List Event)
    → let (h, outputs) = run (new max_missed) es in deaths outputs ≡ (if h.dead then 1 else 0)
unfolding new
on_dead_once max_missed es = omega (arith, deaths-run (new max_missed) es)

-- The state of a peer that owes the answer to a ping after `missed` silent ticks.
pub record IsWaiting (missed : ℕ) (h : Heartbeat) : Type 0 where
  pub is_started : h.started ≡ true
  pub is_live : h.dead ≡ false
  pub counted : h.missed ≡ missed
  pub owes : h.outstanding ≢ none

tick-IsWaiting :
    (h : Heartbeat) (missed nonce now : ℕ)
    → IsWaiting missed h
    → missed + 1 < h.max_missed
    → IsWaiting (missed + 1) (tick nonce now h).0
      × ((tick nonce now h).0.max_missed ≡ h.max_missed)
      × ((tick nonce now h).1 ≡ send_ping nonce now ∷ [])
unfolding tick
tick-IsWaiting h missed nonce now w below = ground arith

tick_last :
    (h : Heartbeat) (missed nonce now : ℕ)
    → IsWaiting missed h
    → h.max_missed ≤ missed + 1
    → ((tick nonce now h).0.dead ≡ true) × ((tick nonce now h).1 ≡ on_dead ∷ [])
unfolding tick
tick_last h missed nonce now w above = ground arith

abbrev pub silence : List (ℕ × ℕ) → List Event
silence [] = []
silence ((nonce, now) ∷ ts) = ticks nonce now ∷ silence ts

dead_stays :
    (h : Heartbeat) (ts : List (ℕ × ℕ)) → h.dead ≡ true → (run h (silence ts)).0.dead ≡ true
unfolding run
dead_stays h [] d = d
dead_stays h ((nonce, now) ∷ ts) d =
    dead_stays (step h (ticks nonce now)).0 ts (unfold step tick in ground arith)

silence_from :
    (h : Heartbeat) (missed : ℕ) (ts : List (ℕ × ℕ))
    → IsWaiting missed h
    → missed < h.max_missed
    → (run h (silence ts)).0.dead ≡ leb h.max_missed (missed + length ts)
unfolding run step
silence_from h missed [] w below = ground arith
silence_from h missed ((nonce, now) ∷ ts) w below =
    elim (Bool-cases (leb h.max_missed (missed + 1))) [
      | inl t ↦
          dead_stays (tick nonce now h).0 ts (tick_last h missed nonce now w (ground arith)).0
          ∙ ground arith
      | inr f ↦
          let (w', same, _) = tick-IsWaiting h missed nonce now w (ground arith) in
          let ih = silence_from (tick nonce now h).0 (missed + 1) ts w' (ground arith) in
          ground arith
    ]

-- A peer that owes an answer and has missed no tick yet is declared dead by silence of exactly
-- `maxMissed` ticks or more: after fewer ticks without a pong it still counts as alive.
pub dead_after_max_missed :
    (h : Heartbeat) (ts : List (ℕ × ℕ))
    → IsWaiting 0 h
    → 0 < h.max_missed
    → (run h (silence ts)).0.dead ≡ leb h.max_missed (length ts)
dead_after_max_missed h ts w p = ground (arith, silence_from h 0 ts w p)

-- The state of a peer that owes nothing.
pub record IsAnswered (h : Heartbeat) : Type 0 where
  pub is_started : h.started ≡ true
  pub is_live : h.dead ≡ false
  pub none_missed : h.missed ≡ 0
  pub owes_nothing : h.outstanding ≡ none

-- Rounds in which each ping is answered by its own nonce, after any number of pongs with other nonces.
abbrev pub Round : Type 0
Round = ℕ × ℕ × List (ℕ × ℕ) × ℕ

abbrev pub strangers : List (ℕ × ℕ) → List Event
strangers [] = []
strangers ((nonce, now) ∷ ps) = pongs nonce now ∷ strangers ps

abbrev pub Others : ℕ → List (ℕ × ℕ) → Type 0
Others nonce [] = Unit {0}
Others nonce ((n, now) ∷ ps) = (n ≢ nonce) × Others nonce ps

strangers_ignored :
    (h : Heartbeat) (nonce : ℕ) (ps : List (ℕ × ℕ))
    → h.outstanding ≡ some nonce
    → Others nonce ps
    → (run h (strangers ps)).0 ≡ h
unfolding run step on_pong
strangers_ignored h nonce [] e o = refl
strangers_ignored h nonce ((n, now) ∷ ps) e (d, o) =
    let kept : on_pong n now h ≡ h = ground arith in
    ap (λ x. (run x (strangers ps)).0) kept ∙ strangers_ignored h nonce ps e o

run-append : (h : Heartbeat) (xs ys : List Event) → (run h (xs ++ ys)).0 ≡ (run (run h xs).0 ys).0
unfolding run
run-append h [] ys = refl
run-append h (x ∷ xs) ys = run-append (step h x).0 xs ys

abbrev pub round_events : List Round → List Event
round_events [] = []
round_events ((nonce, at, ps, answered) ∷ rs) =
    ticks nonce at ∷ (strangers ps ++ (pongs nonce answered ∷ round_events rs))

abbrev pub AllOthers : List Round → Type 0
AllOthers [] = Unit {0}
AllOthers ((nonce, at, ps, answered) ∷ rs) = Others nonce ps × AllOthers rs

IsAnswered-round :
    (h : Heartbeat) (nonce at answered : ℕ)
    → IsAnswered h
    → ((tick nonce at h).0.outstanding ≡ some nonce)
      × IsAnswered (on_pong nonce answered (tick nonce at h).0)
unfolding tick on_pong
IsAnswered-round h nonce at answered a = ground arith

-- A peer that answers every ping before the next tick never counts as dead, whatever pongs with other
-- nonces arrive in between: after any number of such rounds it owes nothing.
pub IsAnswered-stays_alive :
    (h : Heartbeat) (rs : List Round)
    → IsAnswered h
    → AllOthers rs
    → IsAnswered (run h (round_events rs)).0
unfolding run step
IsAnswered-stays_alive h [] a o = a
IsAnswered-stays_alive h ((nonce, at, ps, answered) ∷ rs) a (o, os) =
    let (owes, a') = IsAnswered-round h nonce at answered a in
    rw
      (
        run-append (tick nonce at h).0 (strangers ps) (pongs nonce answered ∷ round_events rs),
        strangers_ignored (tick nonce at h).0 nonce ps owes o,
      )
      (IsAnswered-stays_alive (on_pong nonce answered (tick nonce at h).0) rs a' os)
