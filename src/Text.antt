-- ===== src/Text.antt =====
-- The parts of Go's strings, strconv, encoding/hex and fmt packages that the chain uses, on texts
-- of Unicode characters. ToLower and ToUpper change ASCII letters and leave every other character;
-- Go's also change the letters of other scripts.
pub mod Numbers
use Prim.Native.Char.{Char, code}
use Prim.Native.String
use synthos_collective.Prelude.{
  ℕ, suc, ◌+◌, ◌-◌, Bool, true, false, ◌&&◌, ◌||◌, drop, Option, none, some, List, [], ◌∷◌, leb,
  if◌then◌else◌, ◌==◌, nat_eq, string_eq, String,
}

-- The list of a text's characters.
abbrev pub chars : String → List Char
chars String.[] = []
chars (String.◌∷◌ c s) = c ∷ chars s

abbrev pub text_of : List Char → String
text_of [] = ""
text_of (c ∷ cs) = String.◌∷◌ c (text_of cs)

-- s[n:]
abbrev pub drop_chars : ℕ → List Char → List Char
drop_chars n cs = drop n cs

-- `h + t` on strings.
abbrev pub join : String → String → String
join s t = String.◌++◌ s t

-- strings.HasPrefix and strings.TrimPrefix. A prefix that does not match is left.
abbrev pub strip : List Char → List Char → Option (List Char)
strip [] cs = some cs
strip (p ∷ ps) [] = none
strip (p ∷ ps) (c ∷ cs) = let rest = strip ps cs in if code p == code c then rest else none

unfoldable pub has_prefix : String → String → Bool
has_prefix s prefix = elim (strip (chars prefix) (chars s)) [ none ↦ false | some _ ↦ true ]

unfoldable pub trim_prefix : String → String → String
trim_prefix s prefix = elim (strip (chars prefix) (chars s)) [ none ↦ s | some rest ↦ text_of rest ]

-- unicode.IsSpace
abbrev is_space : ℕ → Bool
is_space c =
    (leb 9 c && leb c 13)
    || (c == 32 || c == 133 || c == 160 || c == 5760)
    || (leb 8192 c && leb c 8202)
    || (c == 8232 || c == 8233 || c == 8239 || c == 8287 || c == 12288)

skip_spaces : List Char → List Char
skip_spaces [] = []
skip_spaces (c ∷ cs) = let rest = skip_spaces cs in if is_space (code c) then rest else c ∷ cs

drop_trailing : List Char → List Char
drop_trailing [] = []
drop_trailing (c ∷ cs) = keep c (drop_trailing cs)
  where
    keep : Char → List Char → List Char
    keep c [] = if is_space (code c) then [] else c ∷ []
    keep c (d ∷ ds) = c ∷ d ∷ ds

-- strings.TrimSpace
unfoldable pub trim_space : String → String
unfolding skip_spaces drop_trailing
trim_space s = text_of (drop_trailing (skip_spaces (chars s)))

abbrev upper_letters : List Char
upper_letters = chars "ABCDEFGHIJKLMNOPQRSTUVWXYZ"

abbrev lower_letters : List Char
lower_letters = chars "abcdefghijklmnopqrstuvwxyz"

-- The letter of `to` that stands where `c` stands in `from`.
swap_case : List Char → List Char → Char → Char
swap_case (f ∷ from) (t ∷ to) c =
    let rest = swap_case from to c in if code f == code c then t else rest
swap_case _ _ c = c

map_chars : (Char → Char) → List Char → List Char
map_chars f [] = []
map_chars f (c ∷ cs) = f c ∷ map_chars f cs

unfoldable pub to_lower : String → String
unfolding swap_case map_chars
to_lower s = text_of (map_chars (swap_case upper_letters lower_letters) (chars s))

unfoldable pub to_upper : String → String
unfolding swap_case map_chars
to_upper s = text_of (map_chars (swap_case lower_letters upper_letters) (chars s))

abbrev pub is_lower_hex : ℕ → Bool
is_lower_hex c = (leb 48 c && leb c 57) || (leb 97 c && leb c 102)

abbrev is_hex : ℕ → Bool
is_hex c = is_lower_hex c || (leb 65 c && leb c 70)

abbrev pub all_chars : (ℕ → Bool) → List Char → Bool
all_chars p [] = true
all_chars p (c ∷ cs) = p (code c) && all_chars p cs

-- hex.DecodeString gives exactly `n` bytes.
unfoldable pub is_hex_bytes : ℕ → String → Bool
is_hex_bytes n s = all_chars is_hex (chars s) && String.len s == n + n
