-- ===== src/Cron/Text.antt =====
-- The functions of Go's packages strings and strconv that internal/cron/parser.go calls.
use Prim.Native.Char.{Char, code}
use Prim.Native.String.{[], ◌∷◌, ◌++◌, count}
use n8n_turbo.Prelude.{
  ℕ, zero, suc, ◌+◌, ◌-◌, ◌*◌, ◌^◌, Bool, true, false, ◌&&◌, ◌||◌, String, Option, none, some, List,
  if◌then◌else◌, ltb, leb, nat_eqb, ℤ, pos, negsuc,
}

abbrev pub same_char : Char → Char → Bool
same_char c d = nat_eqb (code c) (code d)

abbrev pub is_empty : String → Bool
is_empty [] = true
is_empty (c ∷ s) = false

abbrev pub is_space_code : ℕ → Bool
is_space_code n =
    (leb 9 n && leb n 13)
    || (nat_eqb n 32
        || (nat_eqb n 133
            || (nat_eqb n 160
                || (nat_eqb n 5760
                    || ((leb 8192 n && leb n 8202)
                        || (nat_eqb n 8232
                            || (nat_eqb n 8233
                                || (nat_eqb n 8239 || (nat_eqb n 8287 || nat_eqb n 12288)))))))))

-- `unicode.IsSpace`
abbrev pub is_space : Char → Bool
is_space c = is_space_code (code c)

abbrev pub add_front : Char → List String → List String
add_front c List.[] = List.◌∷◌ (c ∷ []) List.[]
add_front c (List.◌∷◌ w ws) = List.◌∷◌ (c ∷ w) ws

-- `strings.Split` at one character
unfoldable pub split_at : Char → String → List String
split_at sep [] = List.◌∷◌ [] List.[]
split_at sep (c ∷ s) =
    let rest = split_at sep s in if same_char c sep then List.◌∷◌ [] rest else add_front c rest

-- `strings.Cut` at one character; `none` when it is not there
unfoldable pub cut : Char → String → Option (String × String)
cut sep [] = none
cut sep (c ∷ s) =
    let rest = cut sep s in
    if same_char c sep
    then some ([], s)
    else (elim rest [ none ↦ none | some (before, after) ↦ some (c ∷ before, after) ])

-- `strings.Contains` of one character
unfoldable pub contains_char : Char → String → Bool
contains_char sep [] = false
contains_char sep (c ∷ s) = same_char c sep || contains_char sep s

unfoldable pub trim_left : String → String
trim_left [] = []
trim_left (c ∷ s) = let rest = trim_left s in if is_space c then rest else c ∷ s

unfoldable pub trim_right : String → String
trim_right [] = []
trim_right (c ∷ s) = let rest = trim_right s in if is_space c && is_empty rest then [] else c ∷ rest

-- `strings.TrimSpace`
abbrev pub trim_space : String → String
trim_space s = trim_right (trim_left s)

abbrev pub ends_word : String → Bool
ends_word [] = true
ends_word (c ∷ s) = is_space c

-- `strings.Fields`
unfoldable pub words : String → List String
words [] = List.[]
words (c ∷ s) =
    let rest = words s in
    if is_space c then rest else if ends_word s then List.◌∷◌ (c ∷ []) rest else add_front c rest

-- The text after a prefix, when it is one.
unfoldable pub cut_prefix : String → String → Option String
cut_prefix [] s = some s
cut_prefix (p ∷ prefix) [] = none
cut_prefix (p ∷ prefix) (c ∷ s) =
    let rest = cut_prefix prefix s in if same_char p c then rest else none

-- The digits of a number, after those read.
unfoldable pub read_digits : ℕ → String → Option ℕ
read_digits n [] = some n
read_digits n (c ∷ s) =
    let d = code c in
    let rest = read_digits (n * 10 + (d - 48)) s in if leb 48 d && leb d 57 then rest else none

unfoldable pub unsigned : String → Option ℕ
unsigned s = if is_empty s then none else read_digits 0 s

abbrev pub as_positive : ℕ → Option ℤ
as_positive n = if ltb n (2 ^ 63) then some (pos n) else none

abbrev pub as_negative : ℕ → Option ℤ
as_negative zero = some (pos 0)
as_negative (suc n) = if ltb n (2 ^ 63) then some (negsuc n) else none

-- `strconv.Atoi`; `none` is its error.
unfoldable pub atoi : String → Option ℤ
unfolding unsigned read_digits
atoi [] = none
atoi (c ∷ s) =
    if same_char c "-"
    then (elim (unsigned s) [ none ↦ none | some n ↦ as_negative n ])
    else if same_char c "+"
    then (elim (unsigned s) [ none ↦ none | some n ↦ as_positive n ])
    else (elim (unsigned (c ∷ s)) [ none ↦ none | some n ↦ as_positive n ])

-- The lower case of the letters that have one among the characters that the parser reads: A to Z,
-- İ, the Kelvin sign, and Μ.
unfoldable pub lower_from : String → String → Char → Char
lower_from (u ∷ upper) (l ∷ lower) c =
    let rest = lower_from upper lower c in if same_char u c then l else rest
lower_from [] lower c = c
lower_from (u ∷ upper) [] c = c

-- `strings.ToLower`, on those letters.
unfoldable pub to_lower : String → String
unfolding lower_from
to_lower [] = []
to_lower (c ∷ s) =
    lower_from "ABCDEFGHIJKLMNOPQRSTUVWXYZİKΜ" "abcdefghijklmnopqrstuvwxyzikμ" c ∷ to_lower s

abbrev pub starts_with : String → String → Bool
starts_with prefix s = elim (cut_prefix prefix s) [ none ↦ false | some _ ↦ true ]

-- The rest of a text after `skip` characters, with `old` replaced.
unfoldable pub replace_from : String → String → ℕ → String → String
unfolding cut_prefix
replace_from old new skip [] = []
replace_from old new zero (c ∷ s) =
    let skipped = replace_from old new (count old - 1) s in
    let kept = replace_from old new 0 s in
    if starts_with old (c ∷ s) then new ++ skipped else c ∷ kept
replace_from old new (suc skip) (c ∷ s) = replace_from old new skip s

-- `strings.ReplaceAll` of a text that is not empty
abbrev pub replace_all : String → String → String → String
replace_all old new s = replace_from old new 0 s
