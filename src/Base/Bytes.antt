-- ===== src/Base/Bytes.antt =====
-- Bytes, IPv4 addresses as [4]byte, and the big-endian integers of encoding/binary.
use Prim.Native.Nat.{ℕ, zero, suc, ◌+◌, ◌*◌, ◌/◌, ◌%◌, ◌^◌, ◌<◌, bit_and, bit_or}
use mathlib.Core.Path.{◌≡◌, refl}
use mathlib.Core.Logic.{◌↔◌}
use mathlib.Core.Bool.{Bool, true, ◌&&◌}
use mathlib.Core.List.{List, [], ◌∷◌}
use native.Mathlib.Omega.{arith}
use easytun.Base.Tests.{Eq, eqb}
use easytun.Base.Lists.{get_or}

abbrev pub IsByte : ℕ → Type 0
IsByte b = b < 256

-- [4]byte
pub record Vip : Type 0 where
  pub b0 : ℕ
  pub b1 : ℕ
  pub b2 : ℕ
  pub b3 : ℕ

abbrev pub zero_vip : Vip
zero_vip = record { b0 = 0; b1 = 0; b2 = 0; b3 = 0 }

abbrev pub IsVip : Vip → Type 0
IsVip v = IsByte v.b0 × IsByte v.b1 × IsByte v.b2 × IsByte v.b3

unfoldable pub vip_beq : Vip → Vip → Bool
vip_beq v w = eqb v.b0 w.b0 && (eqb v.b1 w.b1 && (eqb v.b2 w.b2 && eqb v.b3 w.b3))

pub vip_beq_iff : (v w : Vip) → (vip_beq v w ≡ true) ↔ (v ≡ w)
unfolding vip_beq
vip_beq_iff v w = ground arith

instance abbrev pub vip_eq : Eq Vip
vip_eq = record { same_key = vip_beq; same_key_iff = vip_beq_iff }

abbrev pub vip_bytes : Vip → List ℕ
vip_bytes v = v.b0 ∷ v.b1 ∷ v.b2 ∷ v.b3 ∷ []

-- The array that a slice conversion reads at an offset.
abbrev pub vip_at : List ℕ → ℕ → Vip
vip_at bs i = record {
  b0 = get_or bs i 0;
  b1 = get_or bs (i + 1) 0;
  b2 = get_or bs (i + 2) 0;
  b3 = get_or bs (i + 3) 0;
}

-- BigEndian.AppendUint16 and BigEndian.Uint16
abbrev pub be16 : ℕ → List ℕ
be16 n = (n / 256 % 256) ∷ (n % 256) ∷ []

abbrev pub u16_at : List ℕ → ℕ → ℕ
u16_at bs i = get_or bs i 0 * 256 + get_or bs (i + 1) 0

-- BigEndian.AppendUint64
abbrev pub be64 : ℕ → List ℕ
be64 n =
    (n / 2 ^ 56 % 256)
    ∷ (n / 2 ^ 48 % 256)
    ∷ (n / 2 ^ 40 % 256)
    ∷ (n / 2 ^ 32 % 256)
    ∷ (n / 2 ^ 24 % 256)
    ∷ (n / 2 ^ 16 % 256)
    ∷ (n / 2 ^ 8 % 256)
    ∷ (n % 256)
    ∷ []

-- Flag bits of a byte, by a table of all 256 values.
agree_below : (ℕ → ℕ) → (ℕ → ℕ) → ℕ → Bool
agree_below f g zero = true
agree_below f g (suc n) = eqb (f n) (g n) && agree_below f g n

agree_below→eq : (f g : ℕ → ℕ) (n : ℕ) → agree_below f g n ≡ true → (i : ℕ) → i < n → f i ≡ g i
unfolding agree_below
agree_below→eq f g zero h i lt = absurd (omega arith)
agree_below→eq f g (suc n) h i lt = ground (arith, agree_below→eq f g n (ground arith) i)

pub clear_top_bit : (b : ℕ) → b < 256 → bit_and b 0x7f ≡ b % 128
unfolding agree_below
clear_top_bit = agree_below→eq _ _ 256 refl

pub top_bit : (b : ℕ) → b < 256 → bit_and b 0x80 ≡ b / 128 * 128
unfolding agree_below
top_bit = agree_below→eq _ _ 256 refl

pub set_top_bit : (b : ℕ) → b < 256 → bit_or b 0x80 ≡ b % 128 + 128
unfolding agree_below
set_top_bit = agree_below→eq _ _ 256 refl

-- The bytes of a counter determine it.
pub be64-injective : (m n : ℕ) → m < 2 ^ 64 → n < 2 ^ 64 → be64 m ≡ be64 n → m ≡ n
be64-injective m n hm hn e = ground arith
