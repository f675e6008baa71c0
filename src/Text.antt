-- ===== src/Text.antt =====
-- What the code calls of Go's packages strings, strconv and path/filepath, on ASCII text.
use Prim.Native.Nat.{◌*◌, ◌^◌}
use Prim.Native.Char.{Char, code}
use k8snetworkplumbingwg_dra.Common.{
  ℕ, zero, suc, ◌+◌, ◌-◌, String, Bool, ◌&&◌, ◌||◌, Option, none, some, ltb, nat_eq, if◌then◌else◌,
}
use k8snetworkplumbingwg_dra.Kube.{ℤ, pos, negsuc}

-- `lo <= c && c <= hi`
abbrev between : ℕ → ℕ → ℕ → Bool
between lo hi c = ltb c (suc hi) && ltb lo (suc c)

-- The value of a digit or a letter, in a base of at most 36.
abbrev digit_value : ℕ → Option ℕ
digit_value c =
    if between 48 57 c
    then some (c - 48)
    else if between 97 122 c
    then some (c - 87)
    else if between 65 90 c
    then some (c - 55)
    else none

abbrev below : ℕ → Option ℕ → Option ℕ
below base none = none
below base (some d) = if ltb d base then some d else none

unfoldable pub digits : ℕ → ℕ → String → Option ℕ
digits base n String.[] = some n
digits base n (String.◌∷◌ c s) = elim (below base (digit_value (code c))) [
  | none ↦ none
  | some d ↦ digits base (n * base + d) s
]

abbrev unsigned : ℕ → String → Option ℕ
unsigned base String.[] = none
unsigned base (String.◌∷◌ c s) = digits base 0 (String.◌∷◌ c s)

abbrev positive : Option ℕ → Option ℤ
positive none = none
positive (some n) = if ltb n (2 ^ 63) then some (pos n) else none

abbrev negative : Option ℕ → Option ℤ
negative none = none
negative (some zero) = some (pos 0)
negative (some (suc n)) = if ltb n (2 ^ 63) then some (negsuc n) else none

-- `strconv.ParseInt(s, base, 64)`; an error is `none`.
unfoldable pub parse_int : ℕ → String → Option ℤ
parse_int base String.[] = none
parse_int base (String.◌∷◌ c s) =
    if nat_eq (code c) 45
    then negative (unsigned base s)
    else if nat_eq (code c) 43
    then positive (unsigned base s)
    else positive (unsigned base (String.◌∷◌ c s))

-- What follows the prefix, if the text has it.
unfoldable pub cut_prefix : String → String → Option String
cut_prefix s String.[] = some s
cut_prefix String.[] (String.◌∷◌ p ps) = none
cut_prefix (String.◌∷◌ c s) (String.◌∷◌ p ps) =
    let rest = cut_prefix s ps in if nat_eq (code c) (code p) then rest else none

-- `strings.TrimPrefix`
abbrev pub trim_prefix : String → String → String
trim_prefix s prefix = elim (cut_prefix s prefix) [ none ↦ s | some rest ↦ rest ]

abbrev is_space : Char → Bool
is_space c = between 9 13 (code c) || nat_eq (code c) 32

unfoldable pub trim_left : String → String
trim_left String.[] = String.[]
trim_left (String.◌∷◌ c s) = let rest = trim_left s in if is_space c then rest else String.◌∷◌ c s

abbrev pub put_before : Char → String → String
put_before c String.[] = if is_space c then String.[] else String.◌∷◌ c String.[]
put_before c (String.◌∷◌ d s) = String.◌∷◌ c (String.◌∷◌ d s)

unfoldable pub trim_right : String → String
trim_right String.[] = String.[]
trim_right (String.◌∷◌ c s) = put_before c (trim_right s)

-- `strings.TrimSpace`
abbrev pub trim_space : String → String
trim_space s = trim_left (trim_right s)

-- `strings.ReplaceAll` of one character by another.
unfoldable pub replace_all : Char → Char → String → String
replace_all old new String.[] = String.[]
replace_all old new (String.◌∷◌ c s) =
    String.◌∷◌ (if nat_eq (code c) (code old) then new else c) (replace_all old new s)

-- What follows the last slash, if there is one.
unfoldable pub after_slash : String → Option String
after_slash String.[] = none
after_slash (String.◌∷◌ c s) = elim (after_slash s) [
  | some rest ↦ some rest
  | none ↦ if nat_eq (code c) 47 then some s else none
]

abbrev put_unless_slash : Char → String → String
put_unless_slash c String.[] = if nat_eq (code c) 47 then String.[] else String.◌∷◌ c String.[]
put_unless_slash c (String.◌∷◌ d s) = String.◌∷◌ c (String.◌∷◌ d s)

unfoldable pub trim_slashes : String → String
trim_slashes String.[] = String.[]
trim_slashes (String.◌∷◌ c s) = put_unless_slash c (trim_slashes s)

abbrev last_element : String → String
last_element String.[] = "/"
last_element (String.◌∷◌ c s) = elim (after_slash (String.◌∷◌ c s)) [
  | some rest ↦ rest
  | none ↦ String.◌∷◌ c s
]

-- `filepath.Base`
unfoldable pub base : String → String
base String.[] = "."
base (String.◌∷◌ c s) = last_element (trim_slashes (String.◌∷◌ c s))
