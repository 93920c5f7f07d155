-- ===== src/Ssh/Commands/Parse.antt =====
-- What the commands of pkg/ssh/cmd take from the packages strconv and strings.
use soft_serve.Base.{
  ℕ, zero, suc, ◌+◌, ◌-◌, ◌*◌, ◌^◌, Bool, true, false, ◌&&◌, ◌||◌, Option, none, some, List, [],
  ◌∷◌, ◌++◌, Text, str, text_eq, ltb, leb, ◌==◌, if◌then◌else◌, any,
}
use soft_serve.Base.Int.{ℤ, pos, negsuc}

-- strconv.ParseBool
unfoldable pub parse_bool : Text → Option Bool
unfolding text_eq
parse_bool s =
    if any (text_eq s) (str "1" ∷ str "t" ∷ str "T" ∷ str "TRUE" ∷ str "true" ∷ str "True" ∷ [])
    then some true
    else if any (text_eq s)
        (str "0" ∷ str "f" ∷ str "F" ∷ str "FALSE" ∷ str "false" ∷ str "False" ∷ [])
    then some false
    else none

-- the value of decimal digits, after those that are read
unfoldable pub digits_value : ℕ → Text → Option ℕ
digits_value acc [] = some acc
digits_value acc (c ∷ s) =
    let rest = digits_value (acc * 10 + (c - b'0')) s in
    if leb b'0' c && leb c b'9' then rest else none

unfoldable pub unsigned_value : Text → Option ℕ
unfolding digits_value
unsigned_value [] = none
unsigned_value (c ∷ s) = digits_value 0 (c ∷ s)

abbrev pub positive : Option ℕ → Option ℤ
positive none = none
positive (some n) = if ltb n (2 ^ 63) then some (pos n) else none

abbrev pub negative : Option ℕ → Option ℤ
negative none = none
negative (some zero) = some (pos 0)
negative (some (suc n)) = if ltb n (2 ^ 63) then some (negsuc n) else none

-- strconv.ParseInt with base 10 and 64 bits
unfoldable pub parse_int : Text → Option ℤ
unfolding unsigned_value
parse_int [] = none
parse_int (c ∷ s) =
    if c == b'-'
    then negative (unsigned_value s)
    else positive (unsigned_value (if c == b'+' then s else c ∷ s))

-- strings.Join with a space
unfoldable pub join_words : List Text → Text
join_words [] = []
join_words (w ∷ []) = w
join_words (w ∷ v ∷ ws) = w ++ b' ' ∷ join_words (v ∷ ws)

-- a Boolean as the verb %t prints it
abbrev pub show_bool : Bool → Text
show_bool true = str "true"
show_bool false = str "false"

-- the order of texts
unfoldable pub text_leb : Text → Text → Bool
text_leb [] t = true
text_leb (c ∷ s) [] = false
text_leb (c ∷ s) (d ∷ t) = ltb c d || c == d && text_leb s t

unfoldable pub insert_text : Text → List Text → List Text
unfolding text_leb
insert_text a [] = a ∷ []
insert_text a (b ∷ bs) =
    let rest = b ∷ insert_text a bs in if text_leb a b then a ∷ b ∷ bs else rest

-- sort.Strings
unfoldable pub sort_texts : List Text → List Text
unfolding insert_text
sort_texts [] = []
sort_texts (a ∷ bs) = insert_text a (sort_texts bs)
