-- ===== src/Format/Items.antt =====
-- `formatv` on the formats that it is meant for: characters and conversions, each with its argument.
use rastapopoulos.Base.{List, [], length, replicate, ℕ, ◌++◌, ◌-◌, ◌<◌, ◌^◌, ◌∷◌, ◌≡◌, ◌≢◌, ◌≤◌}
use rastapopoulos.Format.{Arg, long_word, text, word}
use rastapopoulos.Format.Numerals.{IsNumeral}
use rastapopoulos.Strings.Compare.{NoNul}

pub data Item : Type 0 where
  plain decimal long_decimal pointer : ℕ → Item
  hexadecimal : ℕ → List ℕ → ℕ → Item
  string : List ℕ → Item

-- How an item is written in a format: a character, "%d", "%lld", "%p", "%s", or
-- "%0X" with the numeral of the width in front of the X.
abbrev pub spelled : Item → List ℕ
spelled (plain c) = c ∷ []
spelled (decimal n) = b'%' ∷ b'd' ∷ []
spelled (long_decimal n) = b'%' ∷ b'l' ∷ b'l' ∷ b'd' ∷ []
spelled (pointer n) = b'%' ∷ b'p' ∷ []
spelled (hexadecimal width digits n) = b'%' ∷ b'0' ∷ (digits ++ (b'X' ∷ []))
spelled (string s) = b'%' ∷ b's' ∷ []

abbrev pub passed : Item → List Arg → List Arg
passed (plain c) args = args
passed (decimal n) args = word n ∷ args
passed (long_decimal n) args = long_word n ∷ args
passed (pointer n) args = word n ∷ args
passed (hexadecimal width digits n) args = word n ∷ args
passed (string s) args = text (s ++ (0 ∷ [])) ∷ args

abbrev pub IsItem : Item → Type 0
IsItem (plain c) = (0 < c) × (c ≢ b'%')
IsItem (decimal n) = n < 2 ^ 32
IsItem (long_decimal n) = n < 2 ^ 64
IsItem (pointer n) = n < 2 ^ 32
IsItem (hexadecimal width digits n) =
    (1 ≤ width) × (width < 2 ^ 31) × IsNumeral 10 width digits × (n < 2 ^ 32)
IsItem (string s) = NoNul s

-- What the item prints.
abbrev pub Prints : Item → List ℕ → Type 0
Prints (plain c) out = out ≡ c ∷ []
Prints (decimal n) out = IsNumeral 10 n out
Prints (long_decimal n) out = IsNumeral 10 n out
Prints (pointer n) out = (s : List ℕ) × IsNumeral 16 n s × (out ≡ b'0' ∷ b'x' ∷ s)
Prints (hexadecimal width digits n) out =
    (s : List ℕ) × IsNumeral 16 n s × (out ≡ replicate (width - length s) b'0' ++ s)
Prints (string s) out = out ≡ s

-- A whole format, its arguments, and the output, which is the output of each item in turn.
abbrev pub format_of : List Item → List ℕ
format_of [] = 0 ∷ []
format_of (i ∷ items) = spelled i ++ format_of items

abbrev pub args_of : List Item → List Arg
args_of [] = []
args_of (i ∷ items) = passed i (args_of items)

abbrev pub AllItems : List Item → Type 0
AllItems [] = Unit
AllItems (i ∷ items) = IsItem i × AllItems items

abbrev pub PrintsAll : List Item → List ℕ → Type 0
PrintsAll [] out = out ≡ []
PrintsAll (i ∷ items) out =
    (first rest : List ℕ) × Prints i first × PrintsAll items rest × (out ≡ first ++ rest)
