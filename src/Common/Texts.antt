-- ===== src/Common/Texts.antt =====
-- Functions of Go's `strings` on a text, which is a list of characters. A character that they look
-- for is given by its code point.
use Prim.Native.Nat.{ℕ, zero, suc, ◌+◌, ◌/◌, ◌%◌, compare, Ordering}
use Prim.Native.Char.{Char, code}
use Prim.Native.String
use Prim.Native.String.{String}
use mathlib.Core.Bool.{Bool, true, false, ◌&&◌, ◌||◌}
use mathlib.Core.List.{List, [], ◌∷◌, ◌++◌, map}
use mathlib.Core.Option.{Option, none, some}
use mathlib.Core.Option
use zero_trust_service.Common.Tests.{if◌then◌else◌, leb}

abbrev pub is_char : ℕ → Char → Bool
is_char n c = elim (compare (code c) n) [ Ordering.eq ↦ true | _ ↦ false ]

abbrev pub push_front : Char → List String → List String
push_front c [] = []
push_front c (s ∷ parts) = String.◌∷◌ c s ∷ parts

-- `strings.Split` at a separator of one character.
unfoldable pub split : ℕ → String → List String
split at String.[] = "" ∷ []
split at (String.◌∷◌ c s) =
    let rest = split at s in if is_char at c then "" ∷ rest else push_front c rest

-- `strings.Count` of one character.
unfoldable pub count : ℕ → String → ℕ
count at String.[] = 0
count at (String.◌∷◌ c s) = let rest = count at s in if is_char at c then suc rest else rest

-- `strings.Join`.
unfoldable pub join_texts : String → List String → String
join_texts sep [] = ""
join_texts sep (s ∷ []) = s
join_texts sep (s ∷ t ∷ parts) = String.◌++◌ s (String.◌++◌ sep (join_texts sep (t ∷ parts)))

-- `strings.IndexByte`, with `none` for -1.
unfoldable pub index_byte : ℕ → String → Option ℕ
index_byte at String.[] = none
index_byte at (String.◌∷◌ c s) = if is_char at c then some 0 else Option.map suc (index_byte at s)

-- The slices `s[:j]` at each place `j` where the character stands, the longest first.
unfoldable pub cuts : ℕ → String → List String
cuts at String.[] = []
cuts at (String.◌∷◌ c s) = map (String.◌∷◌ c) (cuts at s) ++ (if is_char at c then "" ∷ [] else [])

-- `s[len(prefix):]`, for a text that is as long as the prefix at least.
unfoldable pub after : String → String → String
after String.[] s = s
after (String.◌∷◌ c p) String.[] = String.[]
after (String.◌∷◌ c p) (String.◌∷◌ d s) = after p s

-- The characters of a text that come before its end, by position; nothing past the end.
abbrev pub nth_char : ℕ → String → String
nth_char i String.[] = ""
nth_char zero (String.◌∷◌ c s) = String.◌∷◌ c ""
nth_char (suc i) (String.◌∷◌ c s) = nth_char i s

itoa_loop : ℕ → ℕ → String → String
itoa_loop zero n digits = digits
itoa_loop (suc rounds) n digits =
    let digits' = String.◌++◌ (nth_char (n % 10) "0123456789") digits in
    elim (n / 10) [ zero ↦ digits' | suc m ↦ itoa_loop rounds (suc m) digits' ]

-- `strconv.Itoa` of a number that is not negative. A number has no more digits than its value and one.
unfoldable pub itoa : ℕ → String
unfolding itoa_loop
itoa n = itoa_loop (suc n) n ""

-- `strings.ReplaceAll` of a character by the empty text.
unfoldable pub remove_char : ℕ → String → String
remove_char at String.[] = ""
remove_char at (String.◌∷◌ c s) =
    let rest = remove_char at s in if is_char at c then rest else String.◌∷◌ c rest

-- `strings.Contains` of one character.
unfoldable pub has_char : ℕ → String → Bool
has_char at String.[] = false
has_char at (String.◌∷◌ c s) = is_char at c || has_char at s

-- The text behind the first place where two characters stand next to each other.
unfoldable pub behind_pair : ℕ → ℕ → String → Option String
behind_pair a b String.[] = none
behind_pair a b (String.◌∷◌ c String.[]) = none
behind_pair a b (String.◌∷◌ c (String.◌∷◌ d s)) =
    let rest = behind_pair a b (String.◌∷◌ d s) in
    if is_char a c && is_char b d then some s else rest

in_range : ℕ → ℕ → Char → Bool
in_range low high c = leb low (code c) && leb (code c) high

-- `unicode.IsSpace`.
is_space : Char → Bool
unfolding in_range
is_space c =
    in_range 9 13 c
    || is_char 32 c
    || is_char 0x85 c
    || is_char 0xA0 c
    || is_char 0x1680 c
    || in_range 0x2000 0x200A c
    || in_range 0x2028 0x2029 c
    || is_char 0x202F c
    || is_char 0x205F c
    || is_char 0x3000 c

-- `strings.TrimSpace(s) == ""`.
unfoldable pub is_blank : String → Bool
unfolding is_space
is_blank String.[] = true
is_blank (String.◌∷◌ c s) = is_space c && is_blank s

is_alphanumeric : Char → Bool
unfolding in_range
is_alphanumeric c = in_range b'a' b'z' c || in_range b'A' b'Z' c || in_range b'0' b'9' c

-- `ReplaceAllString` of the pattern `[^a-zA-Z0-9]` by "_".
unfoldable pub only_alphanumeric : String → String
unfolding is_alphanumeric
only_alphanumeric String.[] = ""
only_alphanumeric (String.◌∷◌ c s) =
    String.◌++◌ (if is_alphanumeric c then String.◌∷◌ c "" else "_") (only_alphanumeric s)

-- `s[:n]`, or the whole text where it is no longer.
unfoldable pub truncate : ℕ → String → String
truncate zero s = ""
truncate (suc n) String.[] = ""
truncate (suc n) (String.◌∷◌ c s) = String.◌∷◌ c (truncate n s)

-- The lower case of a letter that folds to one of ASCII.
lower : Char → ℕ
unfolding in_range
lower c =
    if in_range b'A' b'Z' c
    then code c + 32
    else if is_char 0x212A c
    then b'k'
    else if is_char 0x17F c
    then b's'
    else code c

-- `strings.EqualFold` with a text of ASCII in lower case.
unfoldable pub equal_fold : String → String → Bool
unfolding lower
equal_fold String.[] String.[] = true
equal_fold (String.◌∷◌ c s) (String.◌∷◌ d t) = is_char (lower c) d && equal_fold s t
equal_fold _ _ = false

-- `s < t` on texts.
abbrev pub less : String → String → Bool
less s t = elim (String.compare s t) [ Ordering.lt ↦ true | _ ↦ false ]

insert_text : String → List String → List String
insert_text t [] = t ∷ []
insert_text t (s ∷ texts) =
    let rest = insert_text t texts in if less s t then s ∷ rest else t ∷ s ∷ texts

-- `sort.Strings`.
unfoldable pub sort_texts : List String → List String
unfolding insert_text
sort_texts [] = []
sort_texts (t ∷ texts) = insert_text t (sort_texts texts)

-- `strings.HasPrefix`, with the prefix first.
unfoldable pub starts_with : String → String → Bool
starts_with String.[] s = true
starts_with (String.◌∷◌ c p) String.[] = false
starts_with (String.◌∷◌ c p) (String.◌∷◌ d s) = is_char (code c) d && starts_with p s
