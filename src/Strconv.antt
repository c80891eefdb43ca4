-- ===== src/Strconv.antt =====
-- What the code uses of Go's strconv and strings packages: decimal integers, booleans, trimming,
-- splitting at commas and prefixes. A Go string is a text of characters.
pub mod Decimal
pub mod Split
pub mod Fields
use rediver_sdk_go.Prelude.{
  ℕ, zero, suc, ◌+◌, ◌-◌, ◌*◌, ◌/◌, ◌%◌, ◌^◌, ◌≡◌, refl, Bool, true, false, ◌&&◌, ◌||◌, Option,
  none, some, List, [], ◌∷◌, String, Char, code, ℤ, pos, negsuc, ltb, leb, ◌==◌, if◌then◌else◌,
  str_eq, ◌<>◌,
}
use Prim.Native.String

-- The character of a decimal digit.
digit : ℕ → Char
digit zero = "0"
digit (suc zero) = "1"
digit (suc (suc zero)) = "2"
digit (suc (suc (suc zero))) = "3"
digit (suc (suc (suc (suc zero)))) = "4"
digit (suc (suc (suc (suc (suc zero))))) = "5"
digit (suc (suc (suc (suc (suc (suc zero)))))) = "6"
digit (suc (suc (suc (suc (suc (suc (suc zero))))))) = "7"
digit (suc (suc (suc (suc (suc (suc (suc (suc zero)))))))) = "8"
digit _ = "9"

-- The digits of `n` in front of `out`. One unit of fuel is used for each digit, so a fuel above `n`
-- is enough.
format_digits : ℕ → ℕ → String → String
format_digits zero n out = out
format_digits (suc fuel) n out =
    let rest = format_digits fuel (n / 10) (String.◌∷◌ (digit (n % 10)) out) in
    if ltb n 10 then String.◌∷◌ (digit n) out else rest

pub format_nat : ℕ → String
unfolding format_digits digit
format_nat n = format_digits (suc n) n String.[]

-- `strconv.FormatInt(i, 10)`, `strconv.Itoa(i)` and the verb %d.
unfoldable pub format_int : ℤ → String
unfolding format_nat
format_int (pos n) = format_nat n
format_int (negsuc n) = String.◌∷◌ "-" (format_nat (suc n))

is_digit : Char → Bool
is_digit c = leb b'0' (code c) && leb (code c) b'9'

scan_digits : ℕ → String → Option ℕ
unfolding is_digit
scan_digits acc String.[] = some acc
scan_digits acc (String.◌∷◌ c s) =
    if is_digit c then scan_digits (acc * 10 + (code c - b'0')) s else none

-- One digit at least.
parse_nat : String → Option ℕ
unfolding scan_digits
parse_nat String.[] = none
parse_nat (String.◌∷◌ c s) = scan_digits 0 (String.◌∷◌ c s)

-- The range of int64: 2 ^ 63 - 1 above, -2 ^ 63 below.
in_range_pos : Option ℕ → Option ℤ
in_range_pos none = none
in_range_pos (some n) = if ltb n (2 ^ 63) then some (pos n) else none

negate : ℕ → ℤ
negate zero = pos 0
negate (suc n) = negsuc n

in_range_neg : Option ℕ → Option ℤ
unfolding negate
in_range_neg none = none
in_range_neg (some n) = if leb n (2 ^ 63) then some (negate n) else none

-- `strconv.Atoi(s)` and `strconv.ParseInt(s, 10, 64)`; an error is `none`.
unfoldable pub atoi : String → Option ℤ
unfolding parse_nat in_range_pos in_range_neg
atoi String.[] = none
atoi (String.◌∷◌ c s) =
    if code c == b'-'
    then in_range_neg (parse_nat s)
    else if code c == b'+'
    then in_range_pos (parse_nat s)
    else in_range_pos (parse_nat (String.◌∷◌ c s))

-- `strconv.FormatBool(b)`
unfoldable pub format_bool : Bool → String
format_bool true = "true"
format_bool false = "false"

any_eq : String → List String → Bool
any_eq s [] = false
any_eq s (t ∷ ts) = str_eq s t || any_eq s ts

-- `strconv.ParseBool(s)`; an error is `none`.
unfoldable pub parse_bool : String → Option Bool
unfolding any_eq
parse_bool s =
    if any_eq s ("1" ∷ "t" ∷ "T" ∷ "true" ∷ "TRUE" ∷ "True" ∷ [])
    then some true
    else if any_eq s ("0" ∷ "f" ∷ "F" ∷ "false" ∷ "FALSE" ∷ "False" ∷ [])
    then some false
    else none

-- `unicode.IsSpace`
unfoldable pub is_space : Char → Bool
is_space c =
    let n = code c in
    (leb 9 n && leb n 13)
    || (n == 0x20)
    || (n == 0x85)
    || (n == 0xa0)
    || (n == 0x1680)
    || (leb 0x2000 n && leb n 0x200a)
    || (n == 0x2028)
    || (n == 0x2029)
    || (n == 0x202f)
    || (n == 0x205f)
    || (n == 0x3000)

trim_left : String → String
unfolding is_space
trim_left String.[] = String.[]
trim_left (String.◌∷◌ c s) = if is_space c then trim_left s else String.◌∷◌ c s

-- A character in front of a text whose trailing space is gone.
cons_right : Char → String → String
unfolding is_space
cons_right c String.[] = if is_space c then String.[] else String.◌∷◌ c String.[]
cons_right c (String.◌∷◌ d s) = String.◌∷◌ c (String.◌∷◌ d s)

trim_right : String → String
unfolding cons_right
trim_right String.[] = String.[]
trim_right (String.◌∷◌ c s) = cons_right c (trim_right s)

-- `strings.TrimSpace(s)`
unfoldable pub trim_space : String → String
unfolding trim_left trim_right
trim_space s = trim_right (trim_left s)

-- A character in front of the first part.
unfoldable pub push_first : Char → List String → List String
push_first c [] = String.◌∷◌ c String.[] ∷ []
push_first c (p ∷ ps) = String.◌∷◌ c p ∷ ps

-- `strings.Split(s, sep)` for a separator of one character: its parts, never none.
unfoldable pub split_at : ℕ → String → List String
unfolding push_first
split_at sep String.[] = String.[] ∷ []
split_at sep (String.◌∷◌ c s) =
    let rest = split_at sep s in if code c == sep then String.[] ∷ rest else push_first c rest

-- `strings.HasPrefix(s, p)`
unfoldable pub has_prefix : String → String → Bool
has_prefix s String.[] = true
has_prefix String.[] (String.◌∷◌ d p) = false
has_prefix (String.◌∷◌ c s) (String.◌∷◌ d p) = (code c == code d) && has_prefix s p

-- One character more in front of the field that is being read; a space ends it.
push_field : Char → Option String × List String → Option String × List String
push_field c (none, done) = (some (String.◌∷◌ c String.[]), done)
push_field c (some f, done) = (some (String.◌∷◌ c f), done)

end_field : Option String × List String → List String
end_field (none, done) = done
end_field (some f, done) = f ∷ done

fields_from : String → Option String × List String
unfolding is_space push_field end_field
fields_from String.[] = (none, [])
fields_from (String.◌∷◌ c s) =
    let rest = fields_from s in if is_space c then (none, end_field rest) else push_field c rest

-- `strings.Fields(s)`
unfoldable pub fields : String → List String
unfolding fields_from end_field
fields s = end_field (fields_from s)

-- `strings.Join(lines, sep)`
unfoldable pub join : String → List String → String
join sep [] = ""
join sep (l ∷ []) = l
join sep (l ∷ m ∷ ls) = l <> sep <> join sep (m ∷ ls)

fields_example : fields " M\tmain.go  x " ≡ "M" ∷ "main.go" ∷ "x" ∷ []
unfolding fields
fields_example = refl

format_examples :
    (format_int (pos 0) ≡ "0") × (format_int (pos 10) ≡ "10") × (format_int (negsuc 122) ≡ "-123")
unfolding format_int
format_examples = (refl, refl, refl)

atoi_examples :
    (atoi "42" ≡ some (pos 42))
    × (atoi "-7" ≡ some (negsuc 6))
    × (atoi "4x" ≡ none)
    × (atoi "" ≡ none)
unfolding atoi
atoi_examples = (refl, refl, refl, refl)

trim_example : trim_space "  a b " ≡ "a b"
unfolding trim_space
trim_example = refl

split_example : split_at b',' "a,,b" ≡ "a" ∷ "" ∷ "b" ∷ []
unfolding split_at
split_example = refl
