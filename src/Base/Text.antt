-- ===== src/Base/Text.antt =====
-- Go's strings as byte sequences, and the functions of the standard library that the program
-- calls on them (packages strings and strconv). Literals are ASCII, so `codes` gives their bytes.
use Prim.Native.Nat.{ℕ, zero, suc, ◌+◌, ◌-◌, ◌*◌}
use Prim.Native.Char.{code}
use Prim.Native.String.{String}
use mathlib.Core.Path.{◌≡◌, refl}
use mathlib.Core.Logic.{◌↔◌}
use mathlib.Core.Bool.{Bool, true, false, ◌&&◌, ◌||◌}
use mathlib.Core.Option.{Option, none, some}
use mathlib.Core.List.{List, [], ◌∷◌, map, reverse}
use native.Mathlib.Omega.{arith}
use room_booking.Base.Tests.{ltb, leb, ◌==◌, if◌then◌else◌}
use room_booking.Base.Lists.{any}
use room_booking.Base.Int.{ℤ, pos, negsuc}

abbrev pub GoString : Type 0
GoString = List ℕ

abbrev pub codes : String → GoString
codes String.[] = []
codes (String.◌∷◌ c s) = code c ∷ codes s

-- `a == b` on strings.
unfoldable pub text_eq : GoString → GoString → Bool
text_eq [] [] = true
text_eq [] (_ ∷ _) = false
text_eq (_ ∷ _) [] = false
text_eq (a ∷ s) (b ∷ t) = (a == b) && text_eq s t

pub text_eq_iff : (s t : GoString) → (text_eq s t ≡ true) ↔ (s ≡ t)
unfolding text_eq
text_eq_iff [] [] = (λ _. refl, λ _. refl)
text_eq_iff [] (_ ∷ _) = ground arith
text_eq_iff (_ ∷ _) [] = ground arith
text_eq_iff (a ∷ s) (b ∷ t) = ground (arith, text_eq_iff s t)

pub text_eq_refl : (s : GoString) → text_eq s s ≡ true
text_eq_refl s = (text_eq_iff s s).1 refl

-- `strings.HasPrefix`.
unfoldable pub has_prefix : GoString → GoString → Bool
has_prefix s [] = true
has_prefix [] (_ ∷ _) = false
has_prefix (a ∷ s) (b ∷ p) = (a == b) && has_prefix s p

-- `strings.TrimPrefix`.
unfoldable pub trim_prefix : GoString → GoString → GoString
trim_prefix s [] = s
trim_prefix [] (_ ∷ _) = []
trim_prefix (a ∷ s) (b ∷ p) = if has_prefix (a ∷ s) (b ∷ p) then trim_prefix s p else a ∷ s

-- `strings.Contains`.
unfoldable pub contains : GoString → GoString → Bool
unfolding has_prefix
contains [] p = has_prefix [] p
contains (a ∷ s) p = has_prefix (a ∷ s) p || contains s p

-- `strings.Count` of a one-byte string.
unfoldable pub count_byte : ℕ → GoString → ℕ
count_byte c [] = 0
count_byte c (a ∷ s) = (if a == c then 1 else 0) + count_byte c s

-- A byte in front of the first part.
abbrev put_first : ℕ → List GoString → List GoString
put_first a [] = (a ∷ []) ∷ []
put_first a (p ∷ ps) = (a ∷ p) ∷ ps

-- `strings.Split` by a one-byte separator: always at least one part.
unfoldable pub split_on : ℕ → GoString → List GoString
split_on c [] = [] ∷ []
split_on c (a ∷ s) = let rest = split_on c s in if a == c then [] ∷ rest else put_first a rest

-- A space of one byte.
abbrev pub is_space : ℕ → Bool
is_space c = (leb 9 c && leb c 13) || c == 32

-- The last byte of U+2000 to U+200A, U+2028, U+2029 and U+202F, which begin with 226 128.
abbrev pub space_226_128 : ℕ → Bool
space_226_128 c = (leb 128 c && leb c 138) || (c == 168 || (c == 169 || c == 175))

-- The other spaces of three bytes: U+1680, U+205F and U+3000.
abbrev pub three_byte_space : ℕ → ℕ → ℕ → Bool
three_byte_space a b c =
    (a == 226 && (b == 128 && space_226_128 c))
    || ((a == 225 && (b == 154 && c == 128))
        || ((a == 226 && (b == 129 && c == 159)) || (a == 227 && (b == 128 && c == 128))))

-- U+0085 and U+00A0.
abbrev pub two_byte_space : ℕ → ℕ → Bool
two_byte_space a b = a == 194 && (b == 133 || b == 160)

-- The number of bytes, less one, of the space that a text starts with, in UTF-8.
abbrev pub wide_space : GoString → Option ℕ
wide_space (a ∷ b ∷ c ∷ s) =
    if two_byte_space a b then some 1 else if three_byte_space a b c then some 2 else none
wide_space (a ∷ b ∷ []) = if two_byte_space a b then some 1 else none
wide_space _ = none

abbrev pub leading_space : GoString → Option ℕ
leading_space [] = none
leading_space (a ∷ s) = if is_space a then some 0 else wide_space (a ∷ s)

-- The same for the space that a text ends with, of which the bytes come in reverse.
abbrev pub wide_space_back : GoString → Option ℕ
wide_space_back (c ∷ b ∷ a ∷ s) =
    if two_byte_space b c then some 1 else if three_byte_space a b c then some 2 else none
wide_space_back (b ∷ a ∷ []) = if two_byte_space a b then some 1 else none
wide_space_back _ = none

abbrev pub trailing_space : GoString → Option ℕ
trailing_space [] = none
trailing_space (a ∷ s) = if is_space a then some 0 else wide_space_back (a ∷ s)

-- The text without the spaces in front; `skip` counts the bytes that are left of a space.
unfoldable pub trim_left : (GoString → Option ℕ) → ℕ → GoString → GoString
trim_left space skip [] = []
trim_left space (suc skip) (a ∷ s) = trim_left space skip s
trim_left space zero (a ∷ s) = elim (space (a ∷ s)) [
  | none ↦ a ∷ s
  | some width ↦ trim_left space width s
]

-- `strings.TrimSpace`.
unfoldable pub trim_space : GoString → GoString
unfolding trim_left
trim_space s = reverse (trim_left trailing_space 0 (reverse (trim_left leading_space 0 s)))

-- One byte of `strings.ToLower`, on ASCII text.
abbrev pub lower_byte : ℕ → ℕ
lower_byte c = if leb b'A' c && leb c b'Z' then c + 32 else c

-- `strings.ToLower`; `lower_unicode` is what it does with a text that has bytes beyond ASCII.
unfoldable pub to_lower : (GoString → GoString) → GoString → GoString
to_lower lower_unicode s = if any (λ c. leb 128 c) s then lower_unicode s else map lower_byte s

-- The value of a run of digits, `none` at another byte.
unfoldable pub digits_from : ℕ → GoString → Option ℕ
digits_from acc [] = some acc
digits_from acc (c ∷ s) =
    let rest = digits_from (10 * acc + (c - b'0')) s in
    if leb b'0' c && leb c b'9' then rest else none

-- A nonempty run of digits.
unfoldable pub decimal : GoString → Option ℕ
unfolding digits_from
decimal [] = none
decimal (c ∷ s) = digits_from 0 (c ∷ s)

-- The number with its sign, if it fits a 64-bit `int`.
abbrev pub int_of : Bool → Option ℕ → Option ℤ
int_of negative none = none
int_of false (some n) = if ltb n 9223372036854775808 then some (pos n) else none
int_of true (some zero) = some (pos 0)
int_of true (some (suc n)) = if ltb n 9223372036854775808 then some (negsuc n) else none

-- `strconv.Atoi`; `none` stands for its error.
unfoldable pub atoi : GoString → Option ℤ
unfolding decimal
atoi [] = none
atoi (c ∷ s) =
    if c == b'-'
    then int_of true (decimal s)
    else if c == b'+'
    then int_of false (decimal s)
    else int_of false (decimal (c ∷ s))
