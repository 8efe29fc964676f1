-- ===== src/Prelude/Text.antt =====
-- JavaScript strings: their length in UTF-16 units, `trim`, and the character classes of the
-- source's regular expressions. A lone surrogate is no text of the model.
use Prim.Native.Nat.{ℕ, zero, suc, ◌+◌}
use Prim.Native.Char.{code}
use Prim.Native.String.{String, [], ◌∷◌}
use mathlib.Core.Bool.{Bool, true, false, ◌&&◌, ◌||◌}
use mathlib.Core.Option.{Option, none, some}
use mathlib.Core.List.{List, [], ◌∷◌}
use webmcp_security_lab.Prelude.Tests.{ltb, leb, nat_beq, if◌then◌else◌}

-- `text.length`: a character above U+FFFF takes two units.
unfoldable pub units : String → ℕ
units [] = 0
units (c ∷ s) = (if ltb 0xFFFF (code c) then 2 else 1) + units s

abbrev between : ℕ → ℕ → ℕ → Bool
between lo hi c = leb lo c && leb c hi

-- The white space and line terminators that `trim` removes.
is_space : ℕ → Bool
is_space c =
    between 9 13 c
    || nat_beq c 0x20
    || nat_beq c 0xA0
    || nat_beq c 0x1680
    || between 0x2000 0x200A c
    || between 0x2028 0x2029 c
    || nat_beq c 0x202F
    || nat_beq c 0x205F
    || nat_beq c 0x3000
    || nat_beq c 0xFEFF

trim_start : String → String
trim_start [] = []
trim_start (c ∷ s) = if is_space (code c) then trim_start s else c ∷ s

is_empty : String → Bool
is_empty [] = true
is_empty (c ∷ s) = false

trim_end : String → String
trim_end [] = []
trim_end (c ∷ s) =
    let rest = trim_end s in if is_space (code c) && is_empty rest then [] else c ∷ rest

-- `text.trim()`.
unfoldable pub trim : String → String
unfolding is_space trim_start trim_end is_empty
trim s = trim_start (trim_end s)

-- Every character is of the class.
unfoldable pub every : (ℕ → Bool) → String → Bool
every p [] = true
every p (c ∷ s) = p (code c) && every p s

-- `[A-Za-z0-9_-]`.
unfoldable pub is_base64url : ℕ → Bool
is_base64url c =
    between b'A' b'Z' c
    || between b'a' b'z' c
    || between b'0' b'9' c
    || nat_beq c b'_'
    || nat_beq c b'-'

-- `[a-p]`.
unfoldable pub is_a_to_p : ℕ → Bool
is_a_to_p c = between b'a' b'p' c

-- `^[class]{lo,hi}$`.
unfoldable pub matches_class : (ℕ → Bool) → ℕ → ℕ → String → Bool
unfolding units every
matches_class p lo hi s = between lo hi (units s) && every p s

-- `^prefix` followed by a text that passes the test.
unfoldable pub after_prefix : String → (String → Bool) → String → Bool
after_prefix [] test s = test s
after_prefix (p ∷ ps) test [] = false
after_prefix (p ∷ ps) test (c ∷ s) = nat_beq (code p) (code c) && after_prefix ps test s

-- `text.slice(prefix.length)`, where the text starts with the prefix.
unfoldable pub rest_after : String → String → Option String
rest_after [] s = some s
rest_after (p ∷ ps) [] = none
rest_after (p ∷ ps) (c ∷ s) = if nat_beq (code p) (code c) then rest_after ps s else none

-- `[0-9a-f]` and `[a-z0-9]`.
unfoldable pub is_lower_hex : ℕ → Bool
is_lower_hex c = between b'0' b'9' c || between b'a' b'f' c

unfoldable pub is_lower_alnum : ℕ → Bool
is_lower_alnum c = between b'0' b'9' c || between b'a' b'z' c

-- One class for each character.
unfoldable pub matches_each : List (ℕ → Bool) → String → Bool
matches_each [] [] = true
matches_each (p ∷ ps) (c ∷ s) = p (code c) && matches_each ps s
matches_each _ _ = false

abbrev times {ℓ} : {A : Type ℓ} → ℕ → A → List A → List A
times zero a rest = rest
times (suc n) a rest = a ∷ times n a rest

abbrev dash : ℕ → Bool
dash c = nat_beq c b'-'

-- `^[0-9a-f]{8}-[0-9a-f]{4}-[1-8][0-9a-f]{3}-[89ab][0-9a-f]{3}-[0-9a-f]{12}$`.
unfoldable pub is_uuid : String → Bool
unfolding is_lower_hex matches_each
is_uuid s =
    matches_each
      (times 8 is_lower_hex (
        dash
        ∷ times 4 is_lower_hex (
            dash
            ∷ between b'1' b'8'
            ∷ times 3 is_lower_hex (
                dash
                ∷ (λ c. between b'8' b'9' c || between b'a' b'b' c)
                ∷ times 3 is_lower_hex (dash ∷ times 12 is_lower_hex [])))))
      s

-- `^[0-9a-f]{64}$`.
unfoldable pub is_sha256 : String → Bool
unfolding matches_class is_lower_hex
is_sha256 s = matches_class is_lower_hex 64 64 s

-- The last character is of the first class, and those before it of the second.
unfoldable pub ends_in : (ℕ → Bool) → (ℕ → Bool) → String → Bool
ends_in last middle [] = false
ends_in last middle (c ∷ []) = last (code c)
ends_in last middle (c ∷ d ∷ s) = middle (code c) && ends_in last middle (d ∷ s)

-- `^[a-z0-9](?:[middle]{1,longest}[a-z0-9])?$`.
unfoldable pub is_identifier : (ℕ → Bool) → ℕ → String → Bool
unfolding is_lower_alnum ends_in units is_empty
is_identifier middle longest [] = false
is_identifier middle longest (c ∷ s) =
    is_lower_alnum (code c)
    && (is_empty s || (between 2 (longest + 1) (units s) && ends_in is_lower_alnum middle s))
