-- ===== src/Text.antt =====
-- The operations of Python's `str` that the code calls, on native strings.
use Prim.Native.Char.{code}
use django_oauth_toolkit.Prelude.{
  ℕ, String, Bool, Option, none, some, ◌||◌, ◌&&◌, List, [], ◌∷◌, leb, ◌==◌, str_eq, if◌then◌else◌,
}

-- The characters at which `str.split()` with no argument splits.
unfoldable pub is_space : ℕ → Bool
is_space c =
    (leb 9 c && leb c 13)
    || (leb 28 c && leb c 32)
    || c == 0x85
    || c == 0xa0
    || c == 0x1680
    || (leb 0x2000 c && leb c 0x200a)
    || c == 0x2028
    || c == 0x2029
    || c == 0x202f
    || c == 0x205f
    || c == 0x3000

-- A finished word is kept unless it is empty.
abbrev flush : String → List String → List String
flush word rest = if str_eq word "" then rest else word ∷ rest

words : String → String × List String
words String.[] = ("", [])
words (String.◌∷◌ c s) =
    let (word, rest) = words s in
    if is_space (code c) then ("", flush word rest) else (String.◌∷◌ c word, rest)

-- `s.split()`
unfoldable pub split_words : String → List String
unfolding words is_space
split_words s = let (word, rest) = words s in flush word rest

abbrev lstrip : String → String
lstrip String.[] = ""
lstrip (String.◌∷◌ c s) = let rest = lstrip s in if is_space (code c) then rest else String.◌∷◌ c s

abbrev rstrip : String → String
rstrip String.[] = ""
rstrip (String.◌∷◌ c s) =
    let rest = rstrip s in if is_space (code c) && str_eq rest "" then "" else String.◌∷◌ c rest

-- `s.strip()`
unfoldable pub strip : String → String
unfolding is_space
strip s = lstrip (rstrip s)

abbrev append : String → String → String
append String.[] t = t
append (String.◌∷◌ c s) t = String.◌∷◌ c (append s t)

-- `" ".join(ws)`
abbrev pub join_words : List String → String
join_words [] = ""
join_words (w ∷ ws) =
    let rest = join_words ws in elim ws [ [] ↦ w | v ∷ vs ↦ append w (append " " rest) ]

-- `s.split(sep, 1)` for a separator of one character, if it has two parts.
unfoldable pub split_once : ℕ → String → Option (String × String)
split_once sep String.[] = none
split_once sep (String.◌∷◌ c s) =
    let rest = split_once sep s in
    if code c == sep
    then some ("", s)
    else elim rest [ none ↦ none | some p ↦ some (String.◌∷◌ c p.0, p.1) ]
