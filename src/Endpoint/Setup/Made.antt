-- ===== src/Endpoint/Setup/Made.antt =====
-- What NewTun of internal/tun/device_linux.go and device_windows.go has done when it ends.
use easytun.Base.{
  ◌≡◌, refl, ap, Bool, true, false, List, [], ◌∷◌, ◌++◌, Option, none, some, All, Bool-cases, inl,
  inr, ℕ, ◌⊎◌, subst, sym, ◌||◌, ◌&&◌, not, beq_refl, nat_eq, ◌==◌, eqb,
}
use easytun.Base.Bytes.{Vip, vip_eq}
use easytun.Endpoint.Setup.{Call, Action, must, may, Tun, tun_of, carry_out, made}
use easytun.Endpoint.Device.{is_wanted, in_subnet_of, broadcast_ip}
use easytun.Hub.Transfer.{is_loopback, is_multicast}
use easytun.Endpoint.Control.{first_of_subnet}
use easytun.Endpoint.Setup.Linux
use easytun.Endpoint.Setup.Windows

-- No panic so far.
abbrev pub Passes : (Call → Bool) → Action → Type 0
Passes succeeds (must c) = succeeds c ≡ true
Passes succeeds (may c) = Unit {0}

-- The ways in which a plan ends: as a whole, or at the first action that has to succeed and does not.
abbrev pub Ends : (Call → Bool) → List Action → List Action → Bool → Type 0
Ends succeeds plan done ok =
    ((ok ≡ true) × (done ≡ plan) × All (Passes succeeds) plan)
    ⊎ ((before : List Action) × (c : Call) × (after : List Action) × (ok ≡ false)
        × (plan ≡ before ++ (must c ∷ after))
        × (done ≡ before ++ (must c ∷ []))
        × All (Passes succeeds) before
        × (succeeds c ≡ false))

or-true : (b : Bool) → (b || true) ≡ true
or-true true = refl
or-true false = refl

own_dns_wanted : (ip : Vip) → eqb ip.b0 127 ≡ false → is_wanted ip (first_of_subnet ip) ≡ true
unfolding is_wanted is_loopback
own_dns_wanted ip outside =
    let near : in_subnet_of ip (first_of_subnet ip) && not (eqb ip.b0 127) ≡ true =
      rw (outside, beq_refl ip.b0, beq_refl ip.b1, beq_refl ip.b2) refl in
    rw (near, or-true (is_multicast (first_of_subnet ip)))
      (or-true (first_of_subnet ip == broadcast_ip))

module _ (succeeds : Call → Bool) where
  Ends-cons :
      (a : Action) (plan done : List Action) (ok : Bool)
      → Passes succeeds a
      → Ends succeeds plan done ok
      → Ends succeeds (a ∷ plan) (a ∷ done) ok
  Ends-cons a plan done ok h (inl (good, same, all)) = inl (good, ap (◌∷◌ a) same, (h, all))
  Ends-cons a plan done ok h (inr (before, c, after, bad, split, cut, all, fails)) =
      inr (a ∷ before, c, after, bad, ap (◌∷◌ a) split, ap (◌∷◌ a) cut, (h, all), fails)

  carry_out-Ends :
      (plan : List Action)
      → Ends succeeds plan (carry_out succeeds plan).0 (carry_out succeeds plan).1
  unfolding carry_out
  carry_out-Ends [] = inl (refl, refl, tt)
  carry_out-Ends (may c ∷ plan) = Ends-cons (may c) plan _ _ tt (carry_out-Ends plan)
  carry_out-Ends (must c ∷ plan) = elim (Bool-cases (succeeds c)) [
    | inl e ↦
        let (done, ok) = carry_out succeeds plan in
        let same : carry_out succeeds (must c ∷ plan) ≡ (must c ∷ done, ok) = rw e refl in
        subst (λ r. Ends succeeds (must c ∷ plan) r.0 r.1) (sym same)
          (Ends-cons (must c) plan done ok e (carry_out-Ends plan))
    | inr e ↦
        let same : carry_out succeeds (must c ∷ plan) ≡ (must c ∷ [], false) = rw e refl in
        subst (λ r. Ends succeeds (must c ∷ plan) r.0 r.1) (sym same)
          (inr ([], c, plan, refl, refl, refl, tt, e))
  ]

  -- What NewTun comes to: the device, after the whole plan, or none, after the actions up to the
  -- first one that has to succeed and does not.
  abbrev pub Finished : List Action → Tun → List Action × Option Tun → Type 0
  Finished plan t result =
      ((result ≡ (plan, some t)) × All (Passes succeeds) plan)
      ⊎ ((before : List Action) × (c : Call) × (after : List Action) × (plan
            ≡ before ++ (must c ∷ after))
          × (result ≡ (before ++ (must c ∷ []), none))
          × All (Passes succeeds) before
          × (succeeds c ≡ false))

  made-Finished : (plan : List Action) (t : Tun) → Finished plan t (made succeeds plan t)
  unfolding made
  made-Finished plan t = elim (carry_out-Ends plan) [
    | inl (good, same, all) ↦ inl (rw (good, same) refl, all)
    | inr (before, c, after, bad, split, cut, all, fails) ↦
        inr (before, c, after, split, rw (bad, cut) refl, all, fails)
  ]

  -- NewTun of the two systems, for every name, domain and address that is not in 127.0.0.0/8, and
  -- whatever the actions come to: all the actions of its plan are carried out and those that have to
  -- succeed do, and there is a device; or the actions up to the first one that has to succeed and
  -- does not are carried out, and there is none. The device takes the packets for its DNS server.
  pub new_tun-Finished :
      (name domain : List ℕ) (ip : Vip)
      → eqb ip.b0 127 ≡ false
      → let t = tun_of name domain ip in
        Finished (Linux.plan name domain ip) t (Linux.new_tun succeeds name domain ip)
        × Finished (Windows.plan name domain ip) t (Windows.new_tun succeeds name domain ip)
        × (is_wanted t.ip t.dns_ip ≡ true)
  unfolding Linux.new_tun Windows.new_tun
  new_tun-Finished name domain ip outside = (
    made-Finished (Linux.plan name domain ip) (tun_of name domain ip),
    made-Finished (Windows.plan name domain ip) (tun_of name domain ip),
    own_dns_wanted ip outside,
  )
