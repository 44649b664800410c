-- ===== src/Sfu/Governor/Laws.antt =====
-- What the control loop does to a stream, window by window.
use screen_sharing.Prelude.{
  ℕ, zero, suc, ◌+◌, ◌-◌, ◌≤◌, ◌≡◌, true, false, ltb, leb, if◌then◌else◌, arith, min, ◌∙◌,
}
use screen_sharing.Prelude.Text.{js_string_eq}
use screen_sharing.Sfu.Governor.{Governor, StreamState, bottom, next_window, is_unhealthy}

-- One window moves the level by at most one rung and never off the ladder. It goes down exactly when the
-- window is bad and there is a rung below; it goes up exactly when the window is good, it completes the
-- required streak of good windows, and there is a rung above; else the level and its reason stay.
pub next_window_level :
    (g : Governor) (s : StreamState)
    → s.level ≤ bottom
    → let s' = next_window g s in
      let bad = is_unhealthy g.loss_threshold s in
      (s'.level ≤ bottom)
      × (bad ≡ true → s'.level ≡ (if ltb s.level bottom then s.level + 1 else s.level))
      × (bad ≡ false
          → s'.level
            ≡ (if leb g.recovery_windows (s.healthy_streak + 1) then s.level - 1 else s.level))
      × (bad ≡ true → s'.healthy_streak ≡ 0)
      × (s'.level ≡ s.level → s'.last_reason ≡ s.last_reason)
unfolding next_window
next_window_level g s h = (ground arith, ground arith, ground arith, ground arith, ground arith)

-- So many windows of one stream under unchanged reports.
unfoldable pub windows : ℕ → Governor → StreamState → StreamState
windows zero g s = s
windows (suc n) g s = windows n g (next_window g s)

-- Reports are not touched by a window.
next_window_reports :
    (g : Governor) (s : StreamState)
    → is_unhealthy g.loss_threshold (next_window g s) ≡ is_unhealthy g.loss_threshold s
unfolding next_window
next_window_reports g s = ground arith

-- Degradation: under bad reports each window costs one rung, down to the lowest, where it stays.
pub degrades :
    (n : ℕ) (g : Governor) (s : StreamState)
    → is_unhealthy g.loss_threshold s ≡ true
    → s.level ≤ bottom
    → (windows n g s).level ≡ min bottom (s.level + n)
unfolding windows
degrades zero g s bad h = omega arith
degrades (suc n) g s bad h =
    let (low, down, _, _, _) = next_window_level g s h in
    let ih = degrades n g (next_window g s) (next_window_reports g s ∙ bad) low in
    let rung = down bad in ground arith
