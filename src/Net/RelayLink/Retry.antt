-- ===== src/Net/RelayLink/Retry.antt =====
-- openWithRetry of src/main/net/relay-link.ts. What `open` gives, and how long it takes, are arguments; a
-- timer that fires late adds to the time of the attempt that follows.
use screen_sharing.Prelude.{
  ℕ, zero, suc, ◌+◌, ◌*◌, ◌/◌, ◌≤◌, ◌<◌, ◌≡◌, refl, subst, min, Bool, true, false, not, ◌||◌, ◌&&◌,
  Option, none, some, List, [], ◌∷◌, leb, any, if◌then◌else◌, arith, Bool-cases, inl, inr,
}
use screen_sharing.Prelude.Text.{JsString, units, str_eq}

-- A RelayLinkError has the relay's reason, if it gave one.
pub data OpenError : Type 0 where
  other_error : OpenError
  relay_link_error : (reason : Option JsString) → OpenError

abbrev pub fatal_reject_reasons : List JsString
fatal_reject_reasons =
    units "room_exists"
    ∷ units "no_such_room"
    ∷ units "room_full"
    ∷ units "bad_hello"
    ∷ units "proto_mismatch"
    ∷ []

unfoldable pub is_retriable : OpenError → Bool
is_retriable other_error = true
is_retriable (relay_link_error none) = true
is_retriable (relay_link_error (some reason)) = not (any (str_eq reason) fatal_reject_reasons)

-- What an attempt gives: its link, a number, or an error.
pub data Opened : Type 0 where
  link : ℕ → Opened
  failed : OpenError → Opened

pub record Attempt : Type 0 where
  pub duration : ℕ
  pub result : Opened

-- How the retries end: after so many attempts, at a time, with `onWaking` called or not.
pub record Outcome : Type 0 where
  pub result : Opened
  pub attempts : ℕ
  pub ended_at : ℕ
  pub notified : Bool

-- `Math.min(1_500 * attempt, 6_000)`
abbrev pub backoff : ℕ → ℕ
backoff attempt = min (1_500 * attempt) 6_000

abbrev ended : Opened → ℕ → ℕ → Bool → Outcome
ended result attempt now notified = record {
  result = result;
  attempts = attempt;
  ended_at = now;
  notified = notified;
}

abbrev tried : Opened → ℕ → ℕ → ℕ → Bool → Option Outcome → Option Outcome
tried (link l) deadline attempt now notified later = some (ended (link l) attempt now notified)
tried (failed e) deadline attempt now notified later =
    if not (is_retriable e) || leb deadline now
    then some (ended (failed e) attempt now notified)
    else later

module _ (opens : ℕ → Attempt) (deadline waking_after : ℕ) where
  -- The loop, on fuel; `n` attempts have been made.
  unfoldable pub retry_loop : ℕ → ℕ → ℕ → Bool → Option Outcome
  unfolding is_retriable
  retry_loop zero n now notified = none
  retry_loop (suc fuel) n now notified =
      let a = opens (suc n) in
      let later =
        retry_loop fuel (suc n) (now + a.duration + backoff (suc n))
          (notified || leb waking_after (suc n)) in
      tried a.result deadline (suc n) (now + a.duration) notified later

abbrev or_default : Option ℕ → ℕ → ℕ
or_default none d = d
or_default (some n) d = n

-- `openWithRetry`, with enough fuel: every wait takes at least 1,500 ms of the budget.
unfoldable pub open_with_retry : Option ℕ → Option ℕ → (ℕ → Attempt) → ℕ → Option Outcome
unfolding retry_loop
open_with_retry budget_ms waking_after_attempts opens now =
    retry_loop opens (now + or_default budget_ms 75_000) (or_default waking_after_attempts 2)
      (suc (suc (or_default budget_ms 75_000 / 1_500))) 0 now false

-- A link, or an error that is not worth a retry or came at the deadline or later.
abbrev pub IsFinal : ℕ → Outcome → Opened → Type 0
IsFinal deadline o (link l) = Unit
IsFinal deadline o (failed e) = (is_retriable e && not (leb deadline o.ended_at)) ≡ false

-- A result that is final, after so many attempts at most.
abbrev pub Ends : ℕ → ℕ → Option Outcome → Type 0
Ends deadline most result =
    (o : Outcome) × (result ≡ some o) × IsFinal deadline o o.result × (o.attempts ≤ most)

tried-Ends :
    (r : Opened) (deadline attempt now most : ℕ) (notified : Bool) (later : Option Outcome)
    → attempt ≤ most
    → (now < deadline → Ends deadline most later)
    → Ends deadline most (tried r deadline attempt now notified later)
tried-Ends (link l) deadline attempt now most notified later few go_on =
    (ended (link l) attempt now notified, refl, tt, few)
tried-Ends (failed e) deadline attempt now most notified later few go_on =
    elim (Bool-cases (not (is_retriable e) || leb deadline now)) [
      | inl t ↦ rw t (ended (failed e) attempt now notified, refl, ground (arith, t), few)
      | inr f ↦ rw f (go_on (ground (arith, f)))
    ]

retry_loop-Ends :
    (opens : ℕ → Attempt) (deadline waking_after fuel n now : ℕ) (notified : Bool)
    → deadline < now + 1_500 * fuel
    → Ends deadline
        (n + suc fuel)
        (retry_loop opens deadline waking_after (suc fuel) n now notified)
unfolding retry_loop
retry_loop-Ends opens deadline waking_after zero n now notified h =
    tried-Ends (opens (suc n)).result deadline (suc n) _ _ notified _ (omega arith)
      (λ early. absurd (omega (arith, early, h)))
retry_loop-Ends opens deadline waking_after (suc fuel) n now notified h =
    tried-Ends (opens (suc n)).result deadline (suc n) _ _ notified _ (omega arith) (λ early.
      let (o, returned, final, few) =
        retry_loop-Ends opens deadline waking_after fuel (suc n)
          (now + (opens (suc n)).duration + backoff (suc n)) (notified || leb waking_after (suc n))
          (omega (arith, h)) in
      (o, returned, final, omega (arith, few)))

-- Whatever the attempts give and however long they take, the retries come to an end: after at most two
-- attempts more than the budget (75 s, if none is given) has spans of 1.5 s, with a link, or with an error
-- that is not worth a retry or that came when the budget was used up.
pub open_with_retry-Ends :
    (budget_ms waking_after_attempts : Option ℕ) (opens : ℕ → Attempt) (now : ℕ)
    → Ends
        (now + or_default budget_ms 75_000)
        (suc (suc (or_default budget_ms 75_000 / 1_500)))
        (open_with_retry budget_ms waking_after_attempts opens now)
unfolding open_with_retry
open_with_retry-Ends budget_ms waking_after_attempts opens now =
    let budget = or_default budget_ms 75_000 in
    subst
      (λ most. Ends (now + budget) most (open_with_retry budget_ms waking_after_attempts opens now))
      (omega arith)
      (retry_loop-Ends opens (now + budget) (or_default waking_after_attempts 2)
        (suc (budget / 1_500)) 0 now false (omega arith))
