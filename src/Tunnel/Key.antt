-- ===== src/Tunnel/Key.antt =====
-- makeKey of internal/stun/server.go: one key for a pair of addresses, whichever comes first.
use easytun.Base.{
  ℕ, ◌≡◌, ◌⊎◌, inl, inr, Bool, true, false, List, [], ◌∷◌, ◌++◌, ltb, eqb, arith, if◌then◌else◌,
  Bool-cases,
}
use easytun.Base.Bytes.{Vip, vip_bytes}

-- bytes.Compare(xs, ys) < 0
unfoldable pub bytes_lt : List ℕ → List ℕ → Bool
bytes_lt [] [] = false
bytes_lt [] (y ∷ ys) = true
bytes_lt (x ∷ xs) [] = false
bytes_lt (x ∷ xs) (y ∷ ys) =
    let rest = bytes_lt xs ys in if ltb x y then true else if eqb x y then rest else false

abbrev pub vip_lt : Vip → Vip → Bool
vip_lt v w = bytes_lt (vip_bytes v) (vip_bytes w)

unfoldable pub make_key : Vip → Vip → List ℕ
make_key v w = if vip_lt v w then vip_bytes v ++ vip_bytes w else vip_bytes w ++ vip_bytes v

pub vip_lt_asym : (v w : Vip) → vip_lt v w ≡ true → vip_lt w v ≡ false
unfolding bytes_lt
vip_lt_asym v w h = ground arith

pub vip_lt_total : (v w : Vip) → vip_lt v w ≡ false → vip_lt w v ≡ false → v ≡ w
unfolding bytes_lt
vip_lt_total v w h k = ground arith

-- The key of two addresses is the same in both orders.
pub make_key_comm : (v w : Vip) → make_key v w ≡ make_key w v
unfolding make_key
make_key_comm v w = elim (Bool-cases (vip_lt v w)) [
  | inl p ↦ rw (p, vip_lt_asym v w p)
  | inr p ↦ elim (Bool-cases (vip_lt w v)) [ inl q ↦ rw (p, q) | inr q ↦ rw (vip_lt_total v w p q) ]
]

abbrev pub SamePair : Vip → Vip → Vip → Vip → Type 0
SamePair v w x y = ((v ≡ x) × (w ≡ y)) ⊎ ((v ≡ y) × (w ≡ x))

bytes_split :
    (v w x y : Vip) → vip_bytes v ++ vip_bytes w ≡ vip_bytes x ++ vip_bytes y → (v ≡ x) × (w ≡ y)
bytes_split v w x y e = ground arith

-- Two pairs share a key only if they are the same pair, in one order or the other.
pub make_key-injective : (v w x y : Vip) → make_key v w ≡ make_key x y → SamePair v w x y
unfolding make_key
make_key-injective v w x y e = elim (Bool-cases (vip_lt v w)) [
  | inl p ↦ elim (Bool-cases (vip_lt x y)) [
    | inl q ↦ inl (bytes_split v w x y (rw (p, q) at e))
    | inr q ↦ inr (bytes_split v w y x (rw (p, q) at e))
  ]
  | inr p ↦ elim (Bool-cases (vip_lt x y)) [
    | inl q ↦ let (a, b) = bytes_split w v x y (rw (p, q) at e) in inr (b, a)
    | inr q ↦ let (a, b) = bytes_split w v y x (rw (p, q) at e) in inl (b, a)
  ]
]
