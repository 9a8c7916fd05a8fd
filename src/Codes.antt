-- ===== src/Codes.antt =====
-- Texts as lists of code points, with the operations of Python's `str` that the URI code calls:
-- `in`, `partition`, `rpartition`, `startswith`, `endswith`, `rstrip`, `lower` and `int`.
use Prim.Native.Char.{code}
use django_oauth_toolkit.Prelude.{
  ℕ, ◌+◌, ◌-◌, ◌*◌, String, ◌≡◌, ◌↔◌, Bool, true, false, ◌&&◌, ◌||◌, Option, none, some, List, [],
  ◌∷◌, map, arith, leb, ◌==◌, if◌then◌else◌, any,
}

abbrev pub Codes : Type 0
Codes = List ℕ

abbrev pub codes : String → Codes
codes String.[] = []
codes (String.◌∷◌ c s) = code c ∷ codes s

abbrev pub same : Codes → Codes → Bool
same [] [] = true
same [] (b ∷ t) = false
same (a ∷ s) [] = false
same (a ∷ s) (b ∷ t) = a == b && same s t

pub same_iff : (s t : Codes) → (same s t ≡ true) ↔ (s ≡ t)
same_iff [] [] = ground arith
same_iff [] (b ∷ t) = ground arith
same_iff (a ∷ s) [] = ground arith
same_iff (a ∷ s) (b ∷ t) = ground (arith, same_iff s t)

-- `c in s` for one character
abbrev pub has : ℕ → Codes → Bool
has c = any (λ d. d == c)

-- `s.partition(c)`: what stands before the first `c`, and what stands behind it if there is one
abbrev pub partition : ℕ → Codes → Codes × Option Codes
partition c [] = ([], none)
partition c (d ∷ s) =
    let (before, behind) = partition c s in if d == c then ([], some s) else (d ∷ before, behind)

-- The last part of `s.rpartition(c)`: what stands behind the last `c`, or the whole text.
abbrev pub behind_last : ℕ → Codes → Codes
behind_last c [] = []
behind_last c (d ∷ s) =
    let rest = behind_last c s in if has c s then rest else if d == c then s else d ∷ s

abbrev pub starts : Codes → Codes → Bool
starts s [] = true
starts [] (b ∷ t) = false
starts (a ∷ s) (b ∷ t) = a == b && starts s t

abbrev pub ends : Codes → Codes → Bool
ends [] t = same [] t
ends (a ∷ s) t = same (a ∷ s) t || ends s t

-- `s.rstrip(c)` for one character
abbrev pub rstrip : ℕ → Codes → Codes
rstrip c [] = []
rstrip c (d ∷ s) = let rest = rstrip c s in if d == c && same rest [] then [] else d ∷ rest

abbrev pub lower_code : ℕ → ℕ
lower_code c = if leb b'A' c && leb c b'Z' then c + 32 else c

abbrev pub lower : Codes → Codes
lower = map lower_code

abbrev pub is_digit : ℕ → Bool
is_digit c = leb b'0' c && leb c b'9'

abbrev number_from : ℕ → Codes → ℕ
number_from n [] = n
number_from n (c ∷ s) = number_from (n * 10 + (c - b'0')) s

-- `int(s)` of a text of ASCII digits
abbrev pub number : Codes → ℕ
number = number_from 0

-- `s.split(c)`: the first part, and the others
abbrev pub split_on : ℕ → Codes → Codes × List Codes
split_on c [] = ([], [])
split_on c (d ∷ s) =
    let (part, parts) = split_on c s in if d == c then ([], part ∷ parts) else (d ∷ part, parts)
