-- ===== src/Script/Number.antt =====
-- JavaScript's `Number(text)` and `text.toLowerCase()`, as far as `checkPayloadType` of
-- tasks/proxy/utils.ts uses them. A text is the list of its code points.
use solana_proxy.Prelude.{
  ℕ, ◌+◌, ◌-◌, ◌*◌, ◌/◌, ◌%◌, ◌^◌, Bool, true, false, ◌&&◌, ◌||◌, List, [], ◌∷◌, String, ltb, leb,
  ◌==◌, if◌then◌else◌, ◌++◌,
}
use Prim.Native.Char.{code}
use mathlib.Core.List.{reverse}

abbrev pub codes : String → List ℕ
codes String.[] = []
codes (String.◌∷◌ c s) = code c ∷ codes s

abbrev pub same_codes : List ℕ → List ℕ → Bool
same_codes [] [] = true
same_codes (a ∷ as') (b ∷ bs) = a == b && same_codes as' bs
same_codes _ _ = false

-- A number as the task's `switch` tells it apart: `nat` for the naturals (and for -0), `other` for
-- the negative, fractional and infinite ones.
pub data Number : Type 0 where
  nan other : Number
  nat : ℕ → Number

-- WhiteSpace and LineTerminator of ECMAScript.
is_space : ℕ → Bool
is_space c =
    leb 9 c && leb c 13
    || c == 32
    || c == 0xa0
    || c == 0x1680
    || leb 0x2000 c && leb c 0x200a
    || c == 0x2028
    || c == 0x2029
    || c == 0x202f
    || c == 0x205f
    || c == 0x3000
    || c == 0xfeff

trim_start : List ℕ → List ℕ
trim_start [] = []
trim_start (c ∷ s) = let rest = trim_start s in if is_space c then rest else c ∷ s

trim : List ℕ → List ℕ
unfolding trim_start is_space
trim s = reverse (trim_start (reverse (trim_start s)))

is_digit : ℕ → Bool
is_digit c = leb b'0' c && leb c b'9'

-- The value of a digit in bases up to 16; 16 where it is none.
digit_value : ℕ → ℕ
unfolding is_digit
digit_value c =
    if is_digit c
    then c - b'0'
    else if leb b'a' c && leb c b'f'
    then c - b'a' + 10
    else if leb b'A' c && leb c b'F'
    then c - b'A' + 10
    else 16

radix_digits : ℕ → ℕ → List ℕ → Number
radix_digits base acc [] = nat acc
radix_digits base acc (c ∷ s) =
    let rest = radix_digits base (acc * base + digit_value c) s in
    if ltb (digit_value c) base then rest else nan

after_prefix : ℕ → List ℕ → Number
unfolding radix_digits digit_value
after_prefix base [] = nan
after_prefix base (c ∷ s) = radix_digits base 0 (c ∷ s)

record Digits : Type 0 where
  value : ℕ
  count : ℕ
  rest : List ℕ

-- The longest prefix of decimal digits, behind digits that were already read.
span_digits : ℕ → ℕ → List ℕ → Digits
span_digits v k [] = record { value = v; count = k; rest = [] }
span_digits v k (c ∷ s) =
    let more = span_digits (v * 10 + (c - b'0')) (k + 1) s in
    if is_digit c then more else record { value = v; count = k; rest = c ∷ s }

-- `m * 10 ^ up / 10 ^ down`
scaled : ℕ → ℕ → ℕ → Number
scaled m up down = if (m * 10 ^ up) % 10 ^ down == 0 then nat (m * 10 ^ up / 10 ^ down) else other

end_of_exponent : ℕ → ℕ → Bool → Digits → Number
unfolding scaled
end_of_exponent m down negative d = if d.count == 0 then nan else elim d.rest [
  | [] ↦ if negative then scaled m 0 (down + d.value) else scaled m d.value down
  | _ ∷ _ ↦ nan
]

exponent : ℕ → ℕ → List ℕ → Number
unfolding span_digits is_digit end_of_exponent
exponent m down [] = nan
exponent m down (c ∷ s) =
    if c == b'-'
    then end_of_exponent m down true (span_digits 0 0 s)
    else end_of_exponent m down false (span_digits 0 0 (if c == b'+' then s else c ∷ s))

-- What follows the mantissa `m / 10 ^ down`, which has `count` digits.
after_mantissa : ℕ → ℕ → ℕ → List ℕ → Number
unfolding exponent scaled
after_mantissa m down count [] = if count == 0 then nan else scaled m 0 down
after_mantissa m down count (c ∷ s) =
    if count == 0 then nan else if c == b'e' || c == b'E' then exponent m down s else nan

after_integer : Digits → List ℕ → Number
unfolding after_mantissa span_digits is_digit
after_integer d [] = after_mantissa d.value 0 d.count []
after_integer d (c ∷ s) =
    if c == b'.'
    then (let f = span_digits d.value 0 s in
        after_mantissa f.value f.count (d.count + f.count) f.rest)
    else after_mantissa d.value 0 d.count (c ∷ s)

unsigned : List ℕ → Number
unfolding after_integer span_digits is_digit
unsigned s =
    if same_codes s (codes "Infinity")
    then other
    else (let d = span_digits 0 0 s in after_integer d d.rest)

negate : Number → Number
negate nan = nan
negate other = other
negate (nat n) = if n == 0 then nat 0 else other

signed : List ℕ → Number
unfolding unsigned negate
signed [] = nat 0
signed (c ∷ s) =
    if c == b'-' then negate (unsigned s) else if c == b'+' then unsigned s else unsigned (c ∷ s)

trimmed : List ℕ → Number
unfolding signed after_prefix
trimmed (z ∷ x ∷ s) =
    if z == b'0' && (x == b'x' || x == b'X')
    then after_prefix 16 s
    else if z == b'0' && (x == b'o' || x == b'O')
    then after_prefix 8 s
    else if z == b'0' && (x == b'b' || x == b'B')
    then after_prefix 2 s
    else signed (z ∷ x ∷ s)
trimmed s = signed s

-- `Number(text)`, with the exact value where a double would be rounded.
unfoldable pub number_of : String → Number
unfolding trimmed trim
number_of s = trimmed (trim (codes s))

-- One code point of `toLowerCase`: ASCII, and the two other letters whose lower case is ASCII.
unfoldable pub lower_code : ℕ → List ℕ
lower_code c =
    if leb b'A' c && leb c b'Z'
    then (c + 32) ∷ []
    else if c == 0x212a
    then b'k' ∷ []
    else if c == 0x130
    then b'i' ∷ 0x307 ∷ []
    else c ∷ []

unfoldable pub lower_case : List ℕ → List ℕ
unfolding lower_code
lower_case [] = []
lower_case (c ∷ s) = lower_code c ++ lower_case s
