-- ===== src/Text/Numbers.antt =====
-- strconv.ParseUint(s, 10, 64) and the %d verb.
use Prim.Native.Char.{Char, code}
use synthos_collective.Prelude.{
  ℕ, zero, suc, ◌+◌, ◌-◌, ◌*◌, ◌/◌, ◌%◌, Bool, ◌&&◌, List, [], ◌∷◌, leb, ltb, if◌then◌else◌, ◌==◌,
  nat_eq, string_eq, String,
}
use synthos_collective.Words.{u64_mod, max_uint64}
use synthos_collective.Text.{chars, text_of}

pub data Parsed : Type 0 where
  number : ℕ → Parsed
  syntax_error range_error : Parsed

abbrev is_digit : ℕ → Bool
is_digit c = leb 48 c && leb c 57

-- The loop over the digits: a bad character or an overflow ends it where it stands.
unfoldable pub parse_digits : ℕ → List Char → Parsed
parse_digits n [] = number n
parse_digits n (c ∷ cs) =
    let next = n * 10 + (code c - 48) in
    let rest = parse_digits next cs in
    if is_digit (code c) then (if ltb next u64_mod then rest else range_error) else syntax_error

unfoldable pub parse_uint : String → Parsed
unfolding parse_digits
parse_uint s = if s == "" then syntax_error else parse_digits 0 (chars s)

-- What ParseUint returns beside its error: a caller that drops the error goes on with this.
abbrev pub value_of : Parsed → ℕ
value_of (number n) = n
value_of syntax_error = 0
value_of range_error = max_uint64

digit_at : ℕ → List Char → List Char
digit_at n [] = []
digit_at zero (c ∷ cs) = c ∷ []
digit_at (suc n) (c ∷ cs) = digit_at n cs

-- The decimal digits of `n`, in front of `rest`; `n` itself is enough fuel.
digits_before : ℕ → ℕ → List Char → List Char
digits_before zero n rest = rest
digits_before (suc fuel) n rest =
    let shown = prepend (digit_at (n % 10) (chars "0123456789")) rest in
    let more = digits_before fuel (n / 10) shown in if ltb n 10 then shown else more
  where
    prepend : List Char → List Char → List Char
    prepend [] cs = cs
    prepend (c ∷ _) cs = c ∷ cs

-- fmt's %d
unfoldable pub format_uint : ℕ → String
unfolding digit_at digits_before
format_uint n = text_of (digits_before (suc n) n [])
