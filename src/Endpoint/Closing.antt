-- ===== src/Endpoint/Closing.antt =====
-- The status of a client that ends, in internal/transport/client.go: ListenAndServe stores CLOSING once, when
-- its context ends, while its loop of attempts stores its own, and PerformanceUi of
-- internal/ui/performance.go reads the status once a second.
use easytun.Base.{
  ℕ, zero, suc, ◌+◌, ◌≡◌, ◌≢◌, refl, ap, ◌∙◌, Bool, true, false, List, [], ◌∷◌, ◌++◌, Option,
  length, All, arith, subst, ◌&&◌,
}
use mathlib.Core.Path.{ap₂}
use easytun.Hub.State.{AddrPort}
use easytun.Endpoint.Config.{Config}
use easytun.Endpoint.Attempts.{
  Loop, Outcome, unreachable, no_socket, refused, served, NatKind, Attempt, store_status,
  backoff_wait, probe_nat, connect_server, proceed, attempt, listen_and_serve,
}
use easytun.Display.{
  Board, Reading, Status, initial, closing, Monitor, Pterm, goes_on, tick, performance_ui,
  new_monitor,
}
use easytun.Display.History.{Ticks, performance_ui-cons}

-- What the atomic holds after the first `k` of these stores, `s` before them.
abbrev pub status_at : ℕ → List Status → Status → Status
status_at zero stores s = s
status_at (suc k) [] s = s
status_at (suc k) (x ∷ stores) s = status_at k stores x

-- The ticks of the display, each with the number of stores before it.
abbrev pub ticks_at : List Status → List (ℕ × Board × Reading) → Ticks
ticks_at stores [] = []
ticks_at stores ((k, b, r) ∷ looks) =
    (b, record r { status = status_at k stores initial }) ∷ ticks_at stores looks

-- The stores of the loop, with CLOSING between them.
abbrev pub with_closing : List Status → List Status → List Status
with_closing before after = before ++ (closing ∷ after)

abbrev pub NotClosing : List Status → Type 0
NotClosing = All (λ s. goes_on s ≡ true)

status_at-goes_on :
    (k : ℕ) (stores : List Status) (s : Status)
    → NotClosing stores
    → goes_on s ≡ true
    → goes_on (status_at k stores s) ≡ true
status_at-goes_on zero stores s each e = e
status_at-goes_on (suc k) [] s each e = e
status_at-goes_on (suc k) (x ∷ stores) s each e = status_at-goes_on k stores x each.1 each.0

-- CLOSING is read after exactly one number of stores, if another store follows it.
status_at-elsewhere :
    (k : ℕ) (xs : List Status) (y : Status) (ys : List Status) (s : Status)
    → NotClosing xs
    → NotClosing (y ∷ ys)
    → goes_on s ≡ true
    → k ≢ length xs + 1
    → goes_on (status_at k (with_closing xs (y ∷ ys)) s) ≡ true
status_at-elsewhere zero xs y ys s before after e n = e
status_at-elsewhere (suc zero) [] y ys s before after e n = absurd (n refl)
status_at-elsewhere (suc (suc k)) [] y ys s before after e n =
    status_at-goes_on k ys y after.1 after.0
status_at-elsewhere (suc k) (x ∷ xs) y ys s before after e n =
    status_at-elsewhere k xs y ys x before.1 after before.0 (λ same. n (omega (arith, same)))

display-goes_on :
    (p : Pterm) (xs : List Status) (y : Status) (ys : List Status)
    (looks : List (ℕ × Board × Reading)) (m : Monitor)
    → NotClosing xs
    → NotClosing (y ∷ ys)
    → m.running_flag ≡ true
    → All (λ x. x.0 ≢ length xs + 1) looks
    → (performance_ui p m (ticks_at (with_closing xs (y ∷ ys)) looks)).running_flag ≡ true
display-goes_on p xs y ys [] m before after runs each = unfold performance_ui in runs
display-goes_on p xs y ys ((k, b, r) ∷ looks) m before after runs each =
    let r' : Reading = record r { status = status_at k (with_closing xs (y ∷ ys)) initial } in
    let on : goes_on r'.status ≡ true =
      status_at-elsewhere k xs y ys initial before after refl each.0 in
    let still : (tick p b m r').running_flag ≡ true = unfold tick in ap₂ ◌&&◌ on runs in
    ap (λ (n : Monitor). n.running_flag)
      (performance_ui-cons p m b r' (ticks_at (with_closing xs (y ∷ ys)) looks) runs)
    ∙ display-goes_on p xs y ys looks (tick p b m r') before after still each.1

NotClosing-append : (xs ys : List Status) → NotClosing (xs ++ ys) → NotClosing xs × NotClosing ys
NotClosing-append [] ys h = (tt, h)
NotClosing-append (x ∷ xs) ys h =
    let (before, after) = NotClosing-append xs ys h.1 in ((h.0, before), after)

append-NotClosing :
    (xs : List Status) (s : Status) → NotClosing xs → goes_on s ≡ true → NotClosing (xs ++ (s ∷ []))
append-NotClosing [] s h e = (e, tt)
append-NotClosing (x ∷ xs) s h e = (h.0, append-NotClosing xs s h.1 e)

probe_nat-NotClosing :
    (enable_p2p : Bool) (nat : Option NatKind) (l : Loop)
    → NotClosing l.statuses
    → NotClosing (probe_nat enable_p2p nat l).statuses
unfolding probe_nat store_status
probe_nat-NotClosing true nat l h = append-NotClosing l.statuses _ h refl
probe_nat-NotClosing false nat l h = h

module _ (resolve : List ℕ → ℕ → AddrPort) (c : Config) where
  proceed-NotClosing :
      (o : Outcome) (l : Loop) → NotClosing l.statuses → NotClosing (proceed resolve c o l).statuses
  unfolding proceed backoff_wait store_status connect_server
  proceed-NotClosing unreachable l h = append-NotClosing _ _ (append-NotClosing _ _ h refl) refl
  proceed-NotClosing no_socket l h = append-NotClosing _ _ (append-NotClosing _ _ h refl) refl
  proceed-NotClosing refused l h =
      append-NotClosing _ _ (append-NotClosing _ _ (append-NotClosing _ _ h refl) refl) refl
  proceed-NotClosing (served answer) l h =
      append-NotClosing _ _
        (append-NotClosing _ _ (append-NotClosing _ _ (append-NotClosing _ _ h refl) refl) refl)
        refl

  listen_and_serve-NotClosing :
      (attempts : List Attempt) (l : Loop)
      → NotClosing l.statuses
      → NotClosing (listen_and_serve resolve c l attempts).statuses
  unfolding listen_and_serve attempt
  listen_and_serve-NotClosing [] l h = h
  listen_and_serve-NotClosing (a ∷ attempts) l h =
      listen_and_serve-NotClosing attempts (attempt resolve c l a) (
        proceed-NotClosing a.outcome (probe_nat c.enable_p2p a.nat l)
          (probe_nat-NotClosing c.enable_p2p a.nat l h))

  -- The loop of ListenAndServe, whatever its attempts come to, stores statuses, and CLOSING is stored
  -- between two of them; it was not stored before. Then PerformanceUi goes on through all its ticks,
  -- however many there are, unless one of them falls between CLOSING and the next store.
  pub performance_ui-goes_on :
      (p : Pterm) (attempts : List Attempt) (l : Loop) (xs : List Status) (y : Status)
      (ys : List Status) (looks : List (ℕ × Board × Reading))
      → NotClosing l.statuses
      → (listen_and_serve resolve c l attempts).statuses ≡ xs ++ (y ∷ ys)
      → All (λ x. x.0 ≢ length xs + 1) looks
      → (performance_ui p new_monitor (ticks_at (with_closing xs (y ∷ ys)) looks)).running_flag
        ≡ true
  performance_ui-goes_on p attempts l xs y ys looks h e each =
      let all = listen_and_serve-NotClosing attempts l h in
      let (before, after) = NotClosing-append xs (y ∷ ys) (subst NotClosing e all) in
      display-goes_on p xs y ys looks new_monitor before after (unfold new_monitor in refl) each
