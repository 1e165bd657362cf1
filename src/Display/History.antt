-- ===== src/Display/History.antt =====
-- PerformanceUi of internal/ui/performance.go over its ticks: the history that the charts show, and
-- where the loop ends.
use easytun.Base.{
  ℕ, suc, ◌≡◌, ◌≤◌, refl, ap, sym, ◌∙◌, Bool, true, false, List, [], ◌∷◌, ◌++◌, length, drop, arith,
  if◌then◌else◌, subst, length-append, ◌&&◌,
}
use mathlib.Core.Path.{ap₂}
use mathlib.Core.List.{append_assoc, append-nil}
use easytun.Display.{
  Board, Reading, Status, Screen, Monitor, Pterm, new_monitor, increase, shift_in, goes_on, tick,
  performance_ui, draw,
}

abbrev pub Ticks : Type 0
Ticks = List (Board × Reading)

-- What the counter grew by, from one tick to the next.
abbrev pub increases : ℕ → List ℕ → List ℕ
increases last [] = []
increases last (cur ∷ counts) = increase last cur ∷ increases cur counts

abbrev pub counts : (Reading → ℕ) → Ticks → List ℕ
counts field [] = []
counts field ((b, r) ∷ ticks) = field r ∷ counts field ticks

-- One of the two histories by itself.
abbrev window : List ℕ → ℕ → List ℕ → List ℕ
window history last [] = history
window history last (cur ∷ counts) = window (shift_in (increase last cur) history) cur counts

window-drop :
    (history : List ℕ) (last : ℕ) (counts : List ℕ)
    → 1 ≤ length history
    → window history last counts ≡ drop (length counts) (history ++ increases last counts)
window-drop [] last counts h = absurd (omega (arith, h))
window-drop (x ∷ history) last [] h = sym (append-nil (x ∷ history))
window-drop (x ∷ history) last (cur ∷ counts) h =
    window-drop (history ++ (increase last cur ∷ [])) cur counts
      (omega (arith, length-append history (increase last cur ∷ [])))
    ∙ ap (drop (length counts))
        (append_assoc history (increase last cur ∷ []) (increases cur counts))

abbrev pub GoesOn : Ticks → Type 0
GoesOn [] = Unit {0}
GoesOn ((b, r) ∷ ticks) = (goes_on r.status ≡ true) × GoesOn ticks

module _ (p : Pterm) where
  pub performance_ui-cons :
      (m : Monitor) (b : Board) (r : Reading) (ticks : Ticks)
      → m.running_flag ≡ true
      → performance_ui p m ((b, r) ∷ ticks) ≡ performance_ui p (tick p b m r) ticks
  unfolding performance_ui
  performance_ui-cons m b r ticks e =
      ap (λ (f : Bool). if f then performance_ui p (tick p b m r) ticks else m) e

  performance_ui-ended :
      (m : Monitor) (ticks : Ticks) → m.running_flag ≡ false → performance_ui p m ticks ≡ m
  unfolding performance_ui
  performance_ui-ended m [] e = refl
  performance_ui-ended m ((b, r) ∷ ticks) e =
      ap (λ (f : Bool). if f then performance_ui p (tick p b m r) ticks else m) e

  -- What the loop leaves of a monitor that is running, if it ends at the tick that reads `r`.
  abbrev Ended : Monitor → Ticks → Board → Reading → Monitor → Type 0
  Ended m ticks b r m' =
      (before : List Screen) × (m'.running_flag ≡ false)
      × (m'.send_history
          ≡ window m.send_history m.last_send
              (counts (λ r. r.send_counter) (ticks ++ ((b, r) ∷ []))))
      × (m'.recv_history
          ≡ window m.recv_history m.last_recv
              (counts (λ r. r.recv_counter) (ticks ++ ((b, r) ∷ []))))
      × (m'.area ≡ m.area ++ (before ++ (draw p b r m'.send_history m'.recv_history ∷ [])))
      × (length before ≡ length ticks)

  performance_ui-Ended :
      (ticks : Ticks) (m : Monitor) (b : Board) (r : Reading) (more : Ticks)
      → m.running_flag ≡ true
      → GoesOn ticks
      → goes_on r.status ≡ false
      → Ended m ticks b r (performance_ui p m (ticks ++ ((b, r) ∷ more)))
  unfolding tick
  performance_ui-Ended [] m b r more runs on off =
      let stopped : goes_on r.status && m.running_flag ≡ false =
        ap (λ (f : Bool). f && m.running_flag) off in
      subst (Ended m [] b r)
        (sym (
          performance_ui-cons m b r more runs ∙ performance_ui-ended (tick p b m r) more (stopped)))
        ([], stopped, refl, refl, refl, refl)
  performance_ui-Ended ((b', r') ∷ ticks) m b r more runs on off =
      let runs' : goes_on r'.status && m.running_flag ≡ true = ap₂ ◌&&◌ on.0 runs in
      let (before, stopped, send, recv, drawn, len) =
        performance_ui-Ended ticks (tick p b' m r') b r more (runs') on.1 off in
      let first : Screen =
        draw p b' r' (shift_in (increase m.last_send r'.send_counter) m.send_history)
          (shift_in (increase m.last_recv r'.recv_counter) m.recv_history) in
      subst (Ended m ((b', r') ∷ ticks) b r)
        (sym (performance_ui-cons m b' r' (ticks ++ ((b, r) ∷ more)) runs))
        (
          (first ∷ before),
          stopped,
          send,
          recv,
          (drawn ∙ append_assoc m.area (first ∷ []) _),
          ap suc len,
        )

  -- PerformanceUi draws at every tick until the first one at which it reads the status CLOSING, and
  -- at that one for the last time. What it draws then is from two histories, which are the last five
  -- entries of five zeros followed by what each counter grew by, modulo 2 ^ 64, from its start at 0
  -- to each of the ticks.
  pub performance_ui-ends :
      (ticks : Ticks) (b : Board) (r : Reading) (more : Ticks)
      → GoesOn ticks
      → r.status ≡ Status.closing
      → let sent = counts (λ x. x.send_counter) (ticks ++ ((b, r) ∷ [])) in
        let received = counts (λ x. x.recv_counter) (ticks ++ ((b, r) ∷ [])) in
        let m = performance_ui p new_monitor (ticks ++ ((b, r) ∷ more)) in
        (before : List Screen) × (m.running_flag ≡ false)
        × (m.area ≡ before ++ (draw p b r m.send_history m.recv_history ∷ []))
        × (length before ≡ length ticks)
        × (m.send_history ≡ drop (length sent) ((0 ∷ 0 ∷ 0 ∷ 0 ∷ 0 ∷ []) ++ increases 0 sent))
        × (m.recv_history
            ≡ drop (length received) ((0 ∷ 0 ∷ 0 ∷ 0 ∷ 0 ∷ []) ++ increases 0 received))
  unfolding new_monitor
  performance_ui-ends ticks b r more on off =
      let (before, stopped, send, recv, drawn, len) =
        performance_ui-Ended ticks new_monitor b r more refl on (ap goes_on off) in
      (
        before,
        stopped,
        drawn,
        len,
        send
            ∙ window-drop (0 ∷ 0 ∷ 0 ∷ 0 ∷ 0 ∷ []) 0
                (counts (λ x. x.send_counter) (ticks ++ ((b, r) ∷ []))) (omega arith),
        recv
            ∙ window-drop (0 ∷ 0 ∷ 0 ∷ 0 ∷ 0 ∷ []) 0
                (counts (λ x. x.recv_counter) (ticks ++ ((b, r) ∷ []))) (omega arith),
      )
