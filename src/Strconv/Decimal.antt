-- ===== src/Strconv/Decimal.antt =====
-- Printing an int64 in decimal and reading it back.
use rediver_sdk_go.Prelude.{
  ℕ, zero, suc, ◌+◌, ◌*◌, ◌/◌, ◌%◌, ◌^◌, ◌<◌, ◌≡◌, refl, ◌∙◌, ap, inl, inr, true, false, Bool-cases,
  some, String, Char, code, ℤ, pos, negsuc, arith, ltb,
}
use rediver_sdk_go.Strconv.Split.{IsTrimmed, StartsTrimmed, EndsTrimmed, Lacks}
use rediver_sdk_go.Strconv.{
  is_space, digit, format_digits, format_nat, format_int, is_digit, scan_digits, parse_nat,
  in_range_pos, in_range_neg, negate, atoi,
}

code-digit : (d : ℕ) → d < 10 → code (digit d) ≡ b'0' + d
unfolding digit
code-digit zero h = refl
code-digit (suc zero) h = refl
code-digit (suc (suc zero)) h = refl
code-digit (suc (suc (suc zero))) h = refl
code-digit (suc (suc (suc (suc zero)))) h = refl
code-digit (suc (suc (suc (suc (suc zero))))) h = refl
code-digit (suc (suc (suc (suc (suc (suc zero)))))) h = refl
code-digit (suc (suc (suc (suc (suc (suc (suc zero))))))) h = refl
code-digit (suc (suc (suc (suc (suc (suc (suc (suc zero)))))))) h = refl
code-digit (suc (suc (suc (suc (suc (suc (suc (suc (suc zero))))))))) h = refl
code-digit (suc (suc (suc (suc (suc (suc (suc (suc (suc (suc d)))))))))) h = absurd (omega arith)

scan_digits-digit :
    (acc d : ℕ) (s : String)
    → d < 10
    → scan_digits acc (String.◌∷◌ (digit d) s) ≡ scan_digits (acc * 10 + d) s
unfolding scan_digits is_digit
scan_digits-digit acc d s h = rw (code-digit d h) (ground arith)

-- Reading the printed digits is reading `out` from `n`.
scan_digits-format_digits :
    (fuel n : ℕ) (out : String)
    → n < fuel
    → scan_digits 0 (format_digits fuel n out) ≡ scan_digits n out
unfolding format_digits
scan_digits-format_digits zero n out h = absurd (omega arith)
scan_digits-format_digits (suc fuel) n out h = elim (Bool-cases (ltb n 10)) [
  | inl small ↦
      rw small
        (scan_digits-digit 0 n out (ground arith) ∙ ap (λ k. scan_digits k out) (omega arith))
  | inr big ↦ rw big (
      scan_digits-format_digits fuel (n / 10) (String.◌∷◌ (digit (n % 10)) out) (ground arith)
      ∙ scan_digits-digit (n / 10) (n % 10) out (omega arith)
      ∙ ap (λ k. scan_digits k out) (omega arith))
]

-- A printed number begins with a digit.
record Leads (s : String) : Type 0 where
  lead : ℕ
  rest : String
  is_lead : lead < 10
  shape : s ≡ String.◌∷◌ (digit lead) rest

format_digits-Leads : (fuel n : ℕ) (out : String) → n < fuel → Leads (format_digits fuel n out)
unfolding format_digits
format_digits-Leads zero n out h = absurd (omega arith)
format_digits-Leads (suc fuel) n out h = elim (Bool-cases (ltb n 10)) [
  | inl small ↦ rw small (record { lead = n; rest = out; is_lead = ground arith; shape = refl })
  | inr big ↦
      rw big (format_digits-Leads fuel (n / 10) (String.◌∷◌ (digit (n % 10)) out) (ground arith))
]

parse_nat_of_Leads : (s : String) → Leads s → parse_nat s ≡ scan_digits 0 s
unfolding parse_nat
parse_nat_of_Leads s l = rw l.shape

atoi_of_Leads : (s : String) → Leads s → atoi s ≡ in_range_pos (parse_nat s)
unfolding atoi
atoi_of_Leads s l = rw l.shape (rw (code-digit l.lead l.is_lead) (ground arith))

parse_nat-format_nat : (n : ℕ) → parse_nat (format_nat n) ≡ some n
unfolding format_nat scan_digits
parse_nat-format_nat n =
    parse_nat_of_Leads _ (format_digits-Leads (suc n) n String.[] (omega arith))
    ∙ scan_digits-format_digits (suc n) n String.[] (omega arith)

abbrev pub InInt64 : ℤ → Type 0
InInt64 (pos n) = n < 2 ^ 63
InInt64 (negsuc n) = n < 2 ^ 63

-- Every int64 survives printing and reading.
pub atoi-format_int : (i : ℤ) → InInt64 i → atoi (format_int i) ≡ some i
unfolding format_int in_range_pos in_range_neg
atoi-format_int (pos n) h =
    atoi_of_Leads _ (unfold format_nat in format_digits-Leads (suc n) n String.[] (omega arith))
    ∙ ap in_range_pos (parse_nat-format_nat n)
    ∙ ground arith
atoi-format_int (negsuc n) h =
    unfold atoi in ap in_range_neg (parse_nat-format_nat (suc n)) ∙ unfold negate in ground arith

abbrev OfDigits : String → Type 0
OfDigits String.[] = Unit
OfDigits (String.◌∷◌ c s) = (is_digit c ≡ true) × OfDigits s

digit-is_digit : (d : ℕ) → d < 10 → is_digit (digit d) ≡ true
unfolding is_digit
digit-is_digit d h = rw (code-digit d h) (ground arith)

format_digits-OfDigits :
    (fuel n : ℕ) (out : String) → n < fuel → OfDigits out → OfDigits (format_digits fuel n out)
unfolding format_digits
format_digits-OfDigits zero n out h o = absurd (omega arith)
format_digits-OfDigits (suc fuel) n out h o = elim (Bool-cases (ltb n 10)) [
  | inl small ↦ rw small (digit-is_digit n (ground arith), o)
  | inr big ↦ rw big (
      format_digits-OfDigits fuel (n / 10) (String.◌∷◌ (digit (n % 10)) out) (ground arith)
        (digit-is_digit (n % 10) (omega arith), o))
]

format_nat-OfDigits : (n : ℕ) → OfDigits (format_nat n)
unfolding format_nat
format_nat-OfDigits n = format_digits-OfDigits (suc n) n String.[] (omega arith) tt

OfDigits-Lacks : (s : String) → OfDigits s → Lacks b',' s
unfolding is_digit
OfDigits-Lacks String.[] h = tt
OfDigits-Lacks (String.◌∷◌ c s) h = (ground (arith, h.0), OfDigits-Lacks s h.1)

is_space_of_digit : (c : Char) → is_digit c ≡ true → is_space c ≡ false
unfolding is_digit is_space
is_space_of_digit c h = ground arith

OfDigits-EndsTrimmed : (s : String) → OfDigits s → EndsTrimmed s
OfDigits-EndsTrimmed String.[] h = tt
OfDigits-EndsTrimmed (String.◌∷◌ c String.[]) h = is_space_of_digit c h.0
OfDigits-EndsTrimmed (String.◌∷◌ c (String.◌∷◌ d s)) h = OfDigits-EndsTrimmed (String.◌∷◌ d s) h.1

OfDigits-StartsTrimmed : (s : String) → OfDigits s → StartsTrimmed s
OfDigits-StartsTrimmed String.[] h = tt
OfDigits-StartsTrimmed (String.◌∷◌ c s) h = is_space_of_digit c h.0

minus-EndsTrimmed : (s : String) → OfDigits s → EndsTrimmed (String.◌∷◌ "-" s)
unfolding is_space
minus-EndsTrimmed String.[] h = refl
minus-EndsTrimmed (String.◌∷◌ c s) h = OfDigits-EndsTrimmed (String.◌∷◌ c s) h

-- A printed integer has no outer space.
pub format_int-IsTrimmed : (i : ℤ) → IsTrimmed (format_int i)
unfolding format_int is_space
format_int-IsTrimmed (pos n) = (
  OfDigits-StartsTrimmed _ (format_nat-OfDigits n),
  OfDigits-EndsTrimmed _ (format_nat-OfDigits n),
)
format_int-IsTrimmed (negsuc n) = (refl, minus-EndsTrimmed _ (format_nat-OfDigits (suc n)))

-- A printed integer has no comma.
pub format_int-Lacks : (i : ℤ) → Lacks b',' (format_int i)
unfolding format_int
format_int-Lacks (pos n) = OfDigits-Lacks _ (format_nat-OfDigits n)
format_int-Lacks (negsuc n) = (refl, OfDigits-Lacks _ (format_nat-OfDigits (suc n)))
