-- ===== src/Common/Text.antt =====
-- Text as Rust's `str`: `len` counts the bytes of UTF-8, `==` compares characters, and `trim` drops
-- the characters with the Unicode property White_Space, as `char::is_whitespace` names them.
use Prim.Native.Nat.{ℕ}
use Prim.Native.Char.{Char, code}
use Prim.Native.String.{String}
use mathlib.Core.Bool.{Bool, true, false, ◌||◌, ◌&&◌}
use mathlib.Core.List.{List, [], ◌∷◌}
use sessionweft.Common.Tests.{leb, ◌==◌, if◌then◌else◌}

unfoldable pub is_whitespace : ℕ → Bool
is_whitespace c =
    (leb 0x9 c && leb c 0xd)
    || c == 0x20
    || c == 0x85
    || c == 0xa0
    || c == 0x1680
    || (leb 0x2000 c && leb c 0x200a)
    || c == 0x2028
    || c == 0x2029
    || c == 0x202f
    || c == 0x205f
    || c == 0x3000

abbrev pub is_empty_text : String → Bool
is_empty_text String.[] = true
is_empty_text (String.◌∷◌ c s) = false

unfoldable pub trim_start : String → String
unfolding is_whitespace
trim_start String.[] = ""
trim_start (String.◌∷◌ c s) =
    let rest = trim_start s in if is_whitespace (code c) then rest else String.◌∷◌ c s

-- Drops a character only where all behind it has been dropped.
keep_end : Char → String → String
keep_end c String.[] = if is_whitespace (code c) then "" else String.◌∷◌ c ""
keep_end c (String.◌∷◌ d s) = String.◌∷◌ c (String.◌∷◌ d s)

unfoldable pub trim_end : String → String
unfolding is_whitespace keep_end
trim_end String.[] = ""
trim_end (String.◌∷◌ c s) = keep_end c (trim_end s)

unfoldable pub trim : String → String
unfolding trim_start trim_end
trim s = trim_end (trim_start s)

-- `value.trim().is_empty()`.
unfoldable pub is_blank : String → Bool
unfolding trim
is_blank s = is_empty_text (trim s)

-- `path.split(['/', '\\'])`: the pieces between separators, empty ones included.
unfoldable pub is_separator : ℕ → Bool
is_separator c = c == b'/' || c == 0x5c

extend_head : Char → List String → List String
extend_head c [] = String.◌∷◌ c "" ∷ []
extend_head c (w ∷ ws) = String.◌∷◌ c w ∷ ws

unfoldable pub split_path : String → List String
unfolding is_separator extend_head
split_path String.[] = "" ∷ []
split_path (String.◌∷◌ c s) =
    let rest = split_path s in if is_separator (code c) then "" ∷ rest else extend_head c rest

unfoldable pub starts_with_separator : String → Bool
unfolding is_separator
starts_with_separator String.[] = false
starts_with_separator (String.◌∷◌ c s) = is_separator (code c)

-- Tests on the characters of a text.
unfoldable pub any_char : (ℕ → Bool) → String → Bool
any_char p String.[] = false
any_char p (String.◌∷◌ c s) = p (code c) || any_char p s

unfoldable pub all_chars : (ℕ → Bool) → String → Bool
all_chars p String.[] = true
all_chars p (String.◌∷◌ c s) = p (code c) && all_chars p s

unfoldable pub starts_with_char : ℕ → String → Bool
starts_with_char k String.[] = false
starts_with_char k (String.◌∷◌ c s) = code c == k

unfoldable pub ends_with_char : ℕ → String → Bool
ends_with_char k String.[] = false
ends_with_char k (String.◌∷◌ c String.[]) = code c == k
ends_with_char k (String.◌∷◌ c (String.◌∷◌ d s)) = ends_with_char k (String.◌∷◌ d s)

-- Two given characters stand one behind the other.
unfoldable pub has_pair : ℕ → ℕ → String → Bool
unfolding starts_with_char
has_pair j k String.[] = false
has_pair j k (String.◌∷◌ c s) = (code c == j && starts_with_char k s) || has_pair j k s

unfoldable pub is_hex_digit : ℕ → Bool
is_hex_digit c =
    (leb b'0' c && leb c b'9') || (leb b'a' c && leb c b'f') || (leb b'A' c && leb c b'F')

-- `str::to_ascii_lowercase`.
abbrev replace_char : String → String → Char → Char
replace_char (String.◌∷◌ a s) (String.◌∷◌ b t) c =
    let rest = replace_char s t c in if code a == code c then b else rest
replace_char _ _ c = c

abbrev lower_char : Char → Char
lower_char = replace_char "ABCDEFGHIJKLMNOPQRSTUVWXYZ" "abcdefghijklmnopqrstuvwxyz"

unfoldable pub to_ascii_lowercase : String → String
to_ascii_lowercase String.[] = ""
to_ascii_lowercase (String.◌∷◌ c s) = String.◌∷◌ (lower_char c) (to_ascii_lowercase s)
