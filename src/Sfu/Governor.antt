-- ===== src/Sfu/Governor.antt =====
-- src/main/sfu/governor.ts: the control loop that picks each stream's quality. Fractions are whole
-- numbers of millionths (loss, CPU pressure), percents (kbpsFactor) and tenths (scaleDownBy).
pub mod Laws
use mathlib.Core.Option
use screen_sharing.Prelude.{
  ℕ, ◌+◌, ◌-◌, ◌*◌, ◌/◌, max, Bool, true, false, not, ◌&&◌, ◌||◌, Option, none, some, List, [], ◌∷◌,
  ◌++◌, ltb, leb, ◌==◌, if◌then◌else◌, length, get_or,
}
use screen_sharing.Prelude.Dictionary.{Dictionary, get, set, delete, has, values}
use screen_sharing.Prelude.Text.{JsString, units, js_string_eq}

pub record QualityLevel : Type 0 where
  pub label : JsString
  pub kbps_percent : ℕ
  pub max_fps : ℕ
  pub scale_down_tenths : ℕ

abbrev level : JsString → ℕ → ℕ → ℕ → QualityLevel
level l k f s = record { label = l; kbps_percent = k; max_fps = f; scale_down_tenths = s }

-- Descending quality. Index 0 is full quality.
abbrev pub quality_ladder : List QualityLevel
quality_ladder =
    level (units "1080p60") 100 60 10
    ∷ level (units "1080p30") 50 30 10
    ∷ level (units "720p30") 30 30 15
    ∷ level (units "720p15") 20 15 15
    ∷ level (units "480p15") 12 15 25
    ∷ []

pub record SubscriberSample : Type 0 where
  pub stream_id : JsString
  pub subscriber_peer_id : JsString
  pub fraction_lost : ℕ
  pub rtt_ms : ℕ
  pub fps : ℕ

pub record PublisherSample : Type 0 where
  pub stream_id : JsString
  pub cpu_pressure : ℕ
  pub fps : ℕ

pub data Reason : Type 0 where
  bandwidth cpu restored : Reason

pub record Directive : Type 0 where
  pub owner_peer_id : JsString
  pub stream_id : JsString
  pub max_kbps : ℕ
  pub max_fps : ℕ
  pub scale_down_tenths : ℕ
  pub reason : Reason

pub record StreamState : Type 0 where
  pub owner_peer_id : JsString
  pub level : ℕ
  pub paused : Bool
  pub healthy_streak : ℕ
  pub last_reason : Reason
  pub subs : Dictionary JsString SubscriberSample
  pub pub_sample : Option PublisherSample

pub record Governor : Type 0 where
  pub base_kbps : ℕ
  pub loss_threshold : ℕ
  pub recovery_windows : ℕ
  pub streams : Dictionary JsString StreamState

abbrev or_default : Option ℕ → ℕ → ℕ
or_default none d = d
or_default (some n) d = n

unfoldable pub new : ℕ → Option ℕ → Option ℕ → Governor
new base_kbps loss_threshold recovery_windows = record {
  base_kbps = base_kbps;
  loss_threshold = or_default loss_threshold 50_000;
  recovery_windows = or_default recovery_windows 4;
  streams = [];
}

abbrev pub new_stream : JsString → StreamState
new_stream owner_peer_id = record {
  owner_peer_id = owner_peer_id;
  level = 0;
  paused = false;
  healthy_streak = 0;
  last_reason = restored;
  subs = [];
  pub_sample = none;
}

unfoldable pub register : JsString → JsString → Governor → Governor
register stream_id owner_peer_id g =
    if has stream_id g.streams
    then g
    else record g { streams = set stream_id (new_stream owner_peer_id) g.streams }

unfoldable pub forget : JsString → Governor → Governor
forget stream_id g = record g { streams = delete stream_id g.streams }

-- `const s = streams.get(id); if (s) …` with a change to `s`.
abbrev pub change_found :
    JsString → (StreamState → StreamState) → Option StreamState → Governor → Governor
change_found stream_id change none g = g
change_found stream_id change (some s) g = record g { streams = set stream_id (change s) g.streams }

unfoldable pub set_paused : JsString → Bool → Governor → Governor
set_paused stream_id paused g =
    change_found stream_id (λ s. record s { paused = paused }) (get stream_id g.streams) g

unfoldable pub ingest_subscriber : SubscriberSample → Governor → Governor
ingest_subscriber sample g =
    change_found sample.stream_id
      (λ s. record s { subs = set sample.subscriber_peer_id sample s.subs })
      (get sample.stream_id g.streams) g

unfoldable pub ingest_publisher : PublisherSample → Governor → Governor
ingest_publisher sample g =
    change_found sample.stream_id (λ s. record s { pub_sample = some sample })
      (get sample.stream_id g.streams) g

abbrev pub each_stream :
    (StreamState → StreamState) → Dictionary JsString StreamState → Dictionary JsString StreamState
each_stream change [] = []
each_stream change ((id, s) ∷ m) = (id, change s) ∷ each_stream change m

unfoldable pub drop_subscriber : JsString → Governor → Governor
drop_subscriber peer_id g = record g {
  streams = each_stream (λ s. record s { subs = delete peer_id s.subs }) g.streams;
}

-- `Math.max(...losses)` of at least one loss.
abbrev pub worst_loss : Dictionary JsString SubscriberSample → ℕ
worst_loss [] = 0
worst_loss ((id, x) ∷ m) = max x.fraction_lost (worst_loss m)

abbrev pub cpu_of : Option PublisherSample → ℕ
cpu_of none = 0
cpu_of (some p) = p.cpu_pressure

-- A whole CPU, in millionths.
abbrev pub full_cpu : ℕ
full_cpu = 1_000_000

unfoldable pub is_unhealthy : ℕ → StreamState → Bool
is_unhealthy loss_threshold s =
    ltb loss_threshold (worst_loss s.subs) || leb full_cpu (cpu_of s.pub_sample)

abbrev pub bottom : ℕ
bottom = 4

-- One window of one stream that is neither paused nor unwatched: the new state, with its level and
-- reason, whether or not they changed.
unfoldable pub next_window : Governor → StreamState → StreamState
unfolding is_unhealthy
next_window g s =
    if is_unhealthy g.loss_threshold s && ltb s.level bottom
    then record s {
      level = s.level + 1;
      last_reason = if leb full_cpu (cpu_of s.pub_sample) then cpu else bandwidth;
      healthy_streak = 0;
    }
    else if is_unhealthy g.loss_threshold s
    then record s { healthy_streak = 0 }
    else if leb g.recovery_windows (s.healthy_streak + 1) && ltb 0 s.level
    then record s { level = s.level - 1; last_reason = restored; healthy_streak = 0 }
    else record s { healthy_streak = s.healthy_streak + 1 }

abbrev pub lowest : QualityLevel
lowest = record { label = units "480p15"; kbps_percent = 12; max_fps = 15; scale_down_tenths = 25 }

-- `QUALITY_LADDER[i]!`. Off the ladder the code reads `undefined`, and throws where it uses it; the lowest
-- rung stands there. No level gets there: it starts at 0, and `next_window` alone changes it and keeps
-- it at most `bottom`.
abbrev pub ladder_at : ℕ → QualityLevel
ladder_at i = get_or quality_ladder i lowest

-- `Math.round` of the exact product.
unfoldable pub directive : Governor → JsString → StreamState → Reason → Directive
directive g stream_id s reason =
    let l = ladder_at s.level in
    record {
      owner_peer_id = s.owner_peer_id;
      stream_id = stream_id;
      max_kbps = (g.base_kbps * l.kbps_percent + 50) / 100;
      max_fps = l.max_fps;
      scale_down_tenths = l.scale_down_tenths;
      reason = reason;
    }

abbrev pub is_skipped : StreamState → Bool
is_skipped s = s.paused || length s.subs == 0

unfoldable pub evaluate_stream : Governor → StreamState → StreamState
evaluate_stream g s = if is_skipped s then s else next_window g s

abbrev pub emits : Governor → JsString → StreamState → StreamState → List Directive
emits g id s s' = if s'.level == s.level then [] else directive g id s' s'.last_reason ∷ []

-- The loop of `evaluate`.
unfoldable pub evaluate_all :
    Governor → Dictionary JsString StreamState → Dictionary JsString StreamState × List Directive
unfolding evaluate_stream
evaluate_all g [] = ([], [])
evaluate_all g ((id, s) ∷ m) = (
  (id, evaluate_stream g s) ∷ (evaluate_all g m).0,
  emits g id s (evaluate_stream g s) ++ (evaluate_all g m).1,
)

-- Re-evaluate every active stream; returns directives to send.
unfoldable pub evaluate : Governor → Governor × List Directive
evaluate g = let (streams, out) = evaluate_all g g.streams in (record g { streams = streams }, out)

-- The directive that resumes a stream at its current level (after a pause).
unfoldable pub resume_directive : JsString → Governor → Option Directive
resume_directive stream_id g =
    Option.map (λ s. directive g stream_id s restored) (get stream_id g.streams)

unfoldable pub current_level : JsString → Governor → Option QualityLevel
current_level stream_id g = Option.map (λ s. ladder_at s.level) (get stream_id g.streams)
