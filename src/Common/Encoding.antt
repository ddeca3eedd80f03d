-- ===== src/Common/Encoding.antt =====
-- UTF-8, `url.PathEscape` and `base64.RawURLEncoding` of Go's standard library.
use Prim.Native.Nat.{ℕ, zero, suc, ◌+◌, ◌-◌, ◌*◌, ◌/◌, ◌%◌}
use Prim.Native.Char.{Char, code}
use Prim.Native.String.{String, [], ◌∷◌, ◌++◌}
use mathlib.Core.Path.{◌≡◌, refl}
use mathlib.Core.Bool.{Bool, true, false, ◌&&◌, ◌||◌}
use mathlib.Core.List.{List, [], ◌∷◌, ◌++◌ as append}
use event_gateway.Common.Tests.{leb, eqb, if◌then◌else◌}
use event_gateway.Common.Text.{NoSlash}
use native.Mathlib.Omega.{arith}

-- The bytes of a code point.
utf8 : ℕ → List ℕ
utf8 c =
    if leb c 0x7f
    then c ∷ []
    else if leb c 0x7ff
    then (0xc0 + c / 64) ∷ (0x80 + c % 64) ∷ []
    else if leb c 0xffff
    then (0xe0 + c / 4096) ∷ (0x80 + c / 64 % 64) ∷ (0x80 + c % 64) ∷ []
    else (0xf0 + c / 262144) ∷ (0x80 + c / 4096 % 64) ∷ (0x80 + c / 64 % 64) ∷ (0x80 + c % 64) ∷ []

-- []byte(s)
unfoldable pub to_bytes : String → List ℕ
unfolding utf8
to_bytes [] = []
to_bytes (c ∷ s) = append (utf8 (code c)) (to_bytes s)

char_or : Char → String → ℕ → Char
char_or d [] n = d
char_or d (c ∷ s) zero = c
char_or d (c ∷ s) (suc n) = char_or d s n

is_between : ℕ → ℕ → ℕ → Bool
is_between lo hi c = leb lo c && leb c hi

-- What a path segment holds unescaped: letters, digits and the marks "-_.~$&+:=@".
is_kept : ℕ → Bool
unfolding is_between
is_kept c =
    is_between b'a' b'z' c
    || is_between b'A' b'Z' c
    || is_between b'0' b'9' c
    || eqb c b'-'
    || eqb c b'_'
    || eqb c b'.'
    || eqb c b'~'
    || eqb c b'$'
    || eqb c b'&'
    || eqb c b'+'
    || eqb c b':'
    || eqb c b'='
    || eqb c b'@'

hex_digit : ℕ → Char
unfolding char_or
hex_digit n = char_or "0" "0123456789ABCDEF" n

percent : List ℕ → String
unfolding hex_digit
percent [] = []
percent (b ∷ bs) = "%" ++ (hex_digit (b / 16) ∷ hex_digit (b % 16) ∷ percent bs)

-- url.PathEscape
unfoldable pub path_escape : String → String
unfolding is_kept percent utf8
path_escape [] = []
path_escape (c ∷ s) =
    let rest = path_escape s in
    if is_kept (code c) then c ∷ rest else percent (utf8 (code c)) ++ rest

digit64 : ℕ → Char
unfolding char_or
digit64 n = char_or "A" "ABCDEFGHIJKLMNOPQRSTUVWXYZabcdefghijklmnopqrstuvwxyz0123456789-_" n

-- base64.RawURLEncoding.EncodeToString
unfoldable pub base64 : List ℕ → String
unfolding digit64
base64 [] = []
base64 (a ∷ []) = digit64 (a / 4) ∷ digit64 (a % 4 * 16) ∷ []
base64 (a ∷ b ∷ []) = digit64 (a / 4) ∷ digit64 (a % 4 * 16 + b / 16) ∷ digit64 (b % 16 * 4) ∷ []
base64 (a ∷ b ∷ c ∷ rest) =
    digit64 (a / 4)
    ∷ digit64 (a % 4 * 16 + b / 16)
    ∷ digit64 (b % 16 * 4 + c / 64)
    ∷ digit64 (c % 64)
    ∷ base64 rest

-- unicode.ToUpper, of the ASCII letters.
unfoldable pub upper_letter : Char → Char
unfolding is_between char_or
upper_letter c =
    if is_between b'a' b'z' (code c)
    then char_or c "ABCDEFGHIJKLMNOPQRSTUVWXYZ" (code c - b'a')
    else c

-- unicode.ToLower, of the ASCII letters.
unfoldable pub lower_letter : Char → Char
unfolding is_between char_or
lower_letter c =
    if is_between b'A' b'Z' (code c)
    then char_or c "abcdefghijklmnopqrstuvwxyz" (code c - b'A')
    else c

-- unicode.ToUpper, where the result is in ASCII: of the ASCII letters, of the dotless i and of the long s.
upper_rune : Char → Char
unfolding char_or upper_letter
upper_rune c =
    if eqb (code c) 305
    then char_or c "I" 0
    else if eqb (code c) 383
    then char_or c "S" 0
    else upper_letter c

-- strings.ToUpper; other letters, whose upper case is not in ASCII either, are left as they are.
unfoldable pub to_upper : String → String
unfolding upper_rune
to_upper [] = []
to_upper (c ∷ s) = upper_rune c ∷ to_upper s

-- The class `[a-zA-Z0-9.\-_]` of the program's regular expressions.
is_word_char : ℕ → Bool
unfolding is_between
is_word_char c =
    is_between b'a' b'z' c
    || is_between b'A' b'Z' c
    || is_between b'0' b'9' c
    || eqb c b'.'
    || eqb c b'-'
    || eqb c b'_'

abbrev all_word : String → Bool
all_word [] = true
all_word (c ∷ s) = is_word_char (code c) && all_word s

-- The match of `^[a-zA-Z0-9\.\-_]+$`.
unfoldable pub is_word : String → Bool
unfolding is_word_char
is_word [] = false
is_word (c ∷ s) = all_word (c ∷ s)

all_word-NoSlash : (s : String) → all_word s ≡ true → NoSlash s
unfolding is_word_char is_between
all_word-NoSlash [] e = tt
all_word-NoSlash (c ∷ s) e = (ground arith, all_word-NoSlash s (ground arith))

pub is_word-NoSlash : (s : String) → is_word s ≡ true → NoSlash s
unfolding is_word
is_word-NoSlash [] e = tt
is_word-NoSlash (c ∷ s) e = all_word-NoSlash (c ∷ s) e

escape_test : path_escape "/a b,é" ≡ "%2Fa%20b%2C%C3%A9"
unfolding path_escape
escape_test = refl

base64_test : base64 (to_bytes "sync,é") ≡ "c3luYyzDqQ"
unfolding base64 to_bytes
base64_test = refl
