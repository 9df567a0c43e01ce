-- ===== src/Base/Text/Numerals.antt =====
-- What `std::to_string` and the eight hexadecimal digits print, read back.
use Prim.Native.Nat.{ℕ, zero, suc, ◌+◌, ◌*◌, ◌/◌, ◌%◌, ◌^◌, ◌≤◌, ◌<◌}
use mathlib.Core.Path.{◌≡◌, refl}
use mathlib.Core.Logic.{inl, inr}
use mathlib.Core.List.{List, [], ◌∷◌, ◌++◌}
use native.Mathlib.Omega.{arith}
use native.Mathlib.Nat.{pow-suc, div-lt_self}
use compute_market.Base.Tests.{ltb, Bool-cases}
use compute_market.Base.Lists.{All, length, length-append}
use compute_market.Base.Text.{Text, digit, digits, digit_value, value_of, pad_left, to_string, hex8}

value_of-append :
    (b acc : ℕ) (s t : Text) → value_of b acc (s ++ t) ≡ value_of b (value_of b acc s) t
unfolding value_of
value_of-append b acc [] t = refl
value_of-append b acc (c ∷ s) t = value_of-append b (acc * b + digit_value c) s t

digit_value-digit : (d : ℕ) → d < 16 → digit_value (digit d) ≡ d
unfolding digit_value digit
digit_value-digit d h = ground arith

value_of-digits : (f b n : ℕ) → 2 ≤ b → b ≤ 16 → n < f → value_of b 0 (digits f b n) ≡ n
unfolding digits
value_of-digits zero b n lo hi h = absurd (omega arith)
value_of-digits (suc f) b n lo hi h = elim (Bool-cases (ltb n b)) [
  | inl e ↦ rw e (unfold value_of in omega (arith, digit_value-digit n (ground arith)))
  | inr e ↦
      rw (e, value_of-append b 0 (digits f b (n / b)) (digit (n % b) ∷ []))
        (rw
          (value_of-digits f b (n / b) lo hi
            (omega (arith, div-lt_self {n = n} {k = b} (ground arith) lo)))
          (unfold value_of in rw (digit_value-digit (n % b) (ground arith)) (ground arith)))
]

-- A printed number reads back.
pub value_of-to_string : (n : ℕ) → value_of 10 0 (to_string n) ≡ n
unfolding to_string
value_of-to_string n = value_of-digits (suc n) 10 n (omega arith) (omega arith) (omega arith)

length-pad_left : (w c : ℕ) (s : Text) → length s ≤ w → length (pad_left w c s) ≡ w
unfolding pad_left
length-pad_left zero c s h = omega arith
length-pad_left (suc w) c s h = ground (arith, length-pad_left w c s)

length-digits-le : (k f n : ℕ) → n < 16 ^ suc k → length (digits f 16 n) ≤ suc k
unfolding digits
length-digits-le k zero n h = omega arith
length-digits-le zero (suc f) n h = elim (Bool-cases (ltb n 16)) [
  | inl e ↦ rw e (omega arith)
  | inr e ↦ absurd (ground arith)
]
length-digits-le (suc k) (suc f) n h = elim (Bool-cases (ltb n 16)) [
  | inl e ↦ rw e (omega arith)
  | inr e ↦ rw e (
      omega (
        arith,
        length-append (digits f 16 (n / 16)) (digit (n % 16) ∷ []),
        length-digits-le k f (n / 16) (omega (arith, pow-suc 16 (suc k))),
      ))
]

-- A 32-bit counter is printed in eight digits.
pub length-hex8 : (n : ℕ) → n < 2 ^ 32 → length (hex8 n) ≡ 8
unfolding hex8
length-hex8 n h =
    length-pad_left 8 b'0' (digits (suc n) 16 n) (length-digits-le 7 (suc n) n (omega arith))

-- A printed number is one decimal digit or more.
abbrev pub IsDecimal : ℕ → Type 0
IsDecimal c = (48 ≤ c) × (c ≤ 57)

All-append {ℓ} :
    {A : Type ℓ} (P : A → Type 0) (xs ys : List A) → All P xs → All P ys → All P (xs ++ ys)
All-append P [] ys h k = k
All-append P (x ∷ xs) ys h k = (h.0, All-append P xs ys h.1 k)

digit-IsDecimal : (d : ℕ) → d < 10 → IsDecimal (digit d)
unfolding digit
digit-IsDecimal d h = (ground arith, ground arith)

digits-IsDecimal : (f n : ℕ) → All IsDecimal (digits f 10 n)
unfolding digits
digits-IsDecimal zero n = tt
digits-IsDecimal (suc f) n = elim (Bool-cases (ltb n 10)) [
  | inl e ↦ rw e ((omega arith, ground arith), tt)
  | inr e ↦ rw e (
      All-append IsDecimal (digits f 10 (n / 10)) (digit (n % 10) ∷ [])
        (digits-IsDecimal f (n / 10)) (digit-IsDecimal (n % 10) (omega arith), tt))
]

pub to_string-IsDecimal : (n : ℕ) → All IsDecimal (to_string n)
unfolding to_string
to_string-IsDecimal n = digits-IsDecimal (suc n) n

abbrev pub Starts : Text → Type 0
Starts [] = ⊥
Starts (c ∷ s) = Unit

append-Starts : (s : Text) (c : ℕ) → Starts (s ++ c ∷ [])
append-Starts [] c = tt
append-Starts (d ∷ s) c = tt

pub to_string-Starts : (n : ℕ) → Starts (to_string n)
unfolding to_string digits
to_string-Starts n = elim (Bool-cases (ltb n 10)) [
  | inl e ↦ rw e tt
  | inr e ↦ rw e (append-Starts (digits n 10 (n / 10)) (digit (n % 10)))
]
