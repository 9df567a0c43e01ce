-- ===== src/Base/Text.antt =====
-- `std::string` as its bytes, with the conversions that the proxy uses: `std::to_string`,
-- `std::hex` under `setw` and `setfill`, and `>>` into a `uint16_t`.
pub mod Numerals
use Prim.Native.Nat.{ℕ, zero, suc, ◌+◌, ◌-◌, ◌*◌, ◌/◌, ◌%◌}
use Prim.Native.Char.{code}
use Prim.Native.String.{String}
use mathlib.Core.Path.{◌≡◌, refl}
use mathlib.Core.Bool.{Bool, true, false, ◌&&◌}
use mathlib.Core.List.{List, [], ◌∷◌, ◌++◌}
use native.Mathlib.Omega.{arith}
use compute_market.Base.Tests.{◌==◌, ltb, leb, if◌then◌else◌}
use compute_market.Base.Lists.{length}

abbrev pub Text : Type 0
Text = List ℕ

-- A literal of the source.
unfoldable pub text : String → Text
text String.[] = []
text (String.◌∷◌ c s) = code c ∷ text s

unfoldable pub text_eq : Text → Text → Bool
text_eq [] [] = true
text_eq [] (c ∷ s) = false
text_eq (b ∷ r) [] = false
text_eq (b ∷ r) (c ∷ s) = b == c && text_eq r s

pub text_eq→eq : (r s : Text) → text_eq r s ≡ true → r ≡ s
unfolding text_eq
text_eq→eq [] [] h = refl
text_eq→eq [] (c ∷ s) h = cc
text_eq→eq (b ∷ r) [] h = cc
text_eq→eq (b ∷ r) (c ∷ s) h = ground (arith, text_eq→eq r s)

pub text_eq_refl : (s : Text) → text_eq s s ≡ true
unfolding text_eq
text_eq_refl [] = refl
text_eq_refl (c ∷ s) = ground (arith, text_eq_refl s)

pub digit : ℕ → ℕ
digit d = if ltb d 10 then d + 48 else d + 87

-- The digits of `n` in base `b`, the leading one first, on fuel.
pub digits : ℕ → ℕ → ℕ → Text
unfolding digit
digits zero b n = []
digits (suc f) b n =
    let rest = digits f b (n / b) ++ (digit (n % b) ∷ []) in if ltb n b then digit n ∷ [] else rest

-- `std::to_string` of an unsigned number.
unfoldable pub to_string : ℕ → Text
unfolding digits
to_string n = digits (suc n) 10 n

-- `std::to_string` of an `int`, given as its bit pattern.
unfoldable pub int_to_string : ℕ → Text
unfolding to_string
int_to_string n = if ltb n 2147483648 then to_string n else b'-' ∷ to_string (4294967296 - n)

pub pad_left : ℕ → ℕ → Text → Text
pad_left zero c s = s
pad_left (suc w) c s = if leb (suc w) (length s) then s else c ∷ pad_left w c s

-- `std::hex << std::setfill('0') << std::setw(8)` of a `uint32_t`.
unfoldable pub hex8 : ℕ → Text
unfolding digits pad_left
hex8 n = pad_left 8 b'0' (digits (suc n) 16 n)

pub digit_value : ℕ → ℕ
digit_value c = if ltb c 58 then c - 48 else c - 87

-- What a digit string stands for.
pub value_of : ℕ → ℕ → Text → ℕ
value_of b acc [] = acc
value_of b acc (c ∷ s) = value_of b (acc * b + digit_value c) s

hex8_small : hex8 300 ≡ text "0000012c"
unfolding hex8 text
hex8_small = refl

to_string_small : to_string 3334 ≡ text "3334"
unfolding to_string text
to_string_small = refl
