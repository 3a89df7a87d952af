-- ===== src/Chars/Examples.antt =====
-- The theorems at single characters.
use sunder.Prelude.{◌≡◌, refl, true, arith}
use sunder.Chars.{isupper, islower, tolower, toupper}
use sunder.Chars.Case.{toupper-tolower, tolower-toupper}

-- 'Q'.
toupper-tolower_example : (islower (tolower 81) ≡ true) × (toupper (tolower 81) ≡ 81)
unfolding isupper
toupper-tolower_example = toupper-tolower 81 (omega arith) refl

-- 'z'.
tolower-toupper_example : (isupper (toupper 122) ≡ true) × (tolower (toupper 122) ≡ 122)
unfolding islower
tolower-toupper_example = tolower-toupper 122 (omega arith) refl
