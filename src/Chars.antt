-- ===== src/Chars.antt =====
-- util.c: `safe_isalnum` up to `safe_toupper`. A character is the value of the `int` argument
-- converted to `unsigned`, so a negative `char` is a number near 2 ^ 32, and differences wrap
-- around.
pub mod Case
mod Examples
use sunder.Prelude.{ℕ, ◌+◌, ◌-◌, ◌^◌, Bool, not, ◌&&◌, ◌||◌, ltb, leb, ◌==◌, if◌then◌else◌, u32}
use sunder.Prelude.{bit_and, bit_or}

-- `(unsigned)c - base < count`
abbrev pub within : ℕ → ℕ → ℕ → Bool
within base count c = ltb (u32 (c + 2 ^ 32 - base)) count

unfoldable pub isdigit : ℕ → Bool
isdigit c = within b'0' 10 c

unfoldable pub islower : ℕ → Bool
islower c = within b'a' 26 c

unfoldable pub isupper : ℕ → Bool
isupper c = within b'A' 26 c

unfoldable pub isbdigit : ℕ → Bool
isbdigit c = within b'0' 2 c

unfoldable pub isodigit : ℕ → Bool
isodigit c = within b'0' 8 c

unfoldable pub isprint : ℕ → Bool
isprint c = leb 0x20 c && leb c 0x7e

unfoldable pub isspace : ℕ → Bool
isspace c = c == b' ' || c == 12 || c == 10 || c == 13 || c == 9 || c == 11

unfoldable pub isxdigit : ℕ → Bool
unfolding isdigit
isxdigit c = isdigit c || within b'a' 6 c || within b'A' 6 c

unfoldable pub isalpha : ℕ → Bool
unfolding isupper islower
isalpha c = isupper c || islower c

unfoldable pub isalnum : ℕ → Bool
unfolding isalpha isdigit
isalnum c = isalpha c || isdigit c

unfoldable pub isgraph : ℕ → Bool
unfolding isprint
isgraph c = isprint c && not (c == b' ')

unfoldable pub ispunct : ℕ → Bool
unfolding isgraph isalnum
ispunct c = isgraph c && not (isalnum c)

unfoldable pub tolower : ℕ → ℕ
unfolding isupper
tolower c = if isupper c then bit_or c 0x20 else c

unfoldable pub toupper : ℕ → ℕ
unfolding islower
toupper c = if islower c then bit_and c 0x5f else c
