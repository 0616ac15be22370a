-- ===== src/Base/Hex.antt =====
-- encoding/hex: the bytes of a text of hexadecimal digits, and the text of bytes.
use Prim.Native.Nat.{ℕ, ◌+◌, ◌-◌, ◌*◌, ◌/◌, ◌%◌}
use Prim.Native.Char.{code}
use Prim.Native.String.{String, ◌++◌}
use mathlib.Core.Bool.{◌&&◌}
use mathlib.Core.Option.{Option, none, some}
use mathlib.Core.List.{List, [], ◌∷◌}
use go_mpc_wallet.Base.Lists.{drop}
use go_mpc_wallet.Base.Checks.{leb, if◌then◌else◌}

abbrev digit_value : ℕ → Option ℕ
digit_value c =
    if leb b'0' c && leb c b'9'
    then some (c - b'0')
    else (if leb b'a' c && leb c b'f'
        then some (c - b'a' + 10)
        else (if leb b'A' c && leb c b'F' then some (c - b'A' + 10) else none))

abbrev join_digits : Option ℕ → Option ℕ → Option ℕ
join_digits (some h) (some l) = some (h * 16 + l)
join_digits (some h) none = none
join_digits none l = none

abbrev cons_byte : Option ℕ → Option (List ℕ) → Option (List ℕ)
cons_byte (some b) (some bs) = some (b ∷ bs)
cons_byte (some b) none = none
cons_byte none bs = none

-- `none` is an error: a digit that is none, or an odd number of digits.
unfoldable pub decode_string : String → Option (List ℕ)
decode_string String.[] = some []
decode_string (String.◌∷◌ c String.[]) = none
decode_string (String.◌∷◌ c (String.◌∷◌ d s)) =
    cons_byte (join_digits (digit_value (code c)) (digit_value (code d))) (decode_string s)

hex_digits : List String
hex_digits =
    "0" ∷ "1" ∷ "2" ∷ "3" ∷ "4" ∷ "5" ∷ "6" ∷ "7" ∷ "8" ∷ "9" ∷ "a" ∷ "b" ∷ "c" ∷ "d" ∷ "e" ∷ "f"
    ∷ []

abbrev first_or_empty : List String → String
first_or_empty [] = ""
first_or_empty (s ∷ _) = s

unfoldable pub encode_to_string : List ℕ → String
unfolding hex_digits
encode_to_string [] = ""
encode_to_string (b ∷ bs) =
    first_or_empty (drop (b / 16) hex_digits)
    ++ (first_or_empty (drop (b % 16) hex_digits) ++ encode_to_string bs)
