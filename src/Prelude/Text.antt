-- ===== src/Prelude/Text.antt =====
-- A Go string is the list of its bytes. `codes` writes a literal; it is shut, so that a proof
-- sees the literal and not its bytes.
use Prim.Native.Nat.{ℕ, zero, suc, ◌+◌, ◌/◌, ◌%◌}
use Prim.Native.Char.{code}
use Prim.Native.String.{String}
use mathlib.Core.Path.{refl, ap, ap₂}
use mathlib.Core.Bool.{Bool, true, false, ◌&&◌, ◌||◌}
use mathlib.Core.Option.{Option, none, some}
use mathlib.Core.List.{List, [], ◌∷◌, ◌++◌, map, reverse}
use native.Mathlib.Decide.{ℕ_discrete}
use package.edgecenter_ccm.Prelude.Tests.{if◌then◌else◌, leb, Eq, ◌==◌, nat_eq}

abbrev pub Str : Type 0
Str = List ℕ

unfoldable pub codes : String → Str
codes String.[] = []
codes (String.◌∷◌ c s) = code c ∷ codes s

abbrev head_of : Str → ℕ
head_of [] = 0
head_of (c ∷ s) = c

abbrev tail_of : Str → Str
tail_of [] = []
tail_of (c ∷ s) = s

unfoldable pub str_dec : Discrete Str
unfolding ℕ_discrete
str_dec [] [] = yes refl
str_dec [] (d ∷ t) = no (λ e. cc)
str_dec (c ∷ s) [] = no (λ e. cc)
str_dec (c ∷ s) (d ∷ t) = elim (ℕ_discrete c d) [
  | no ne ↦ no (λ e. ne (ap head_of e))
  | yes p ↦ elim (str_dec s t) [
    | yes q ↦ yes (ap₂ (λ (x : ℕ) (y : Str). x ∷ y) p q)
    | no ne ↦ no (λ e. ne (ap tail_of e))
  ]
]

instance unfoldable pub str_eq : Eq Str
unfolding str_dec
str_eq = record { dec = str_dec }

-- strings.HasPrefix
unfoldable pub has_prefix : Str → Str → Bool
has_prefix s [] = true
has_prefix [] (d ∷ t) = false
has_prefix (c ∷ s) (d ∷ t) = c == d && has_prefix s t

-- strings.Contains
unfoldable pub contains : Str → Str → Bool
unfolding has_prefix
contains [] t = has_prefix [] t
contains (c ∷ s) t = has_prefix (c ∷ s) t || contains s t

-- strings.ToLower on ASCII text
abbrev lower : ℕ → ℕ
lower c = if leb b'A' c && leb c b'Z' then c + 32 else c

unfoldable pub to_lower : Str → Str
to_lower s = map lower s

-- The digits that `%d` prints for a number that is not negative, most significant digit first.
unfoldable pub digits : ℕ → ℕ → Str
digits zero n = []
digits (suc f) n =
    let rest = digits f (n / 10) in
    if leb n 9 then (b'0' + n) ∷ [] else rest ++ ((b'0' + n % 10) ∷ [])

unfoldable pub decimal : ℕ → Str
unfolding digits
decimal n = digits (suc n) n

-- The part before the first byte `sep`, and what follows that byte.
unfoldable pub cut_at : ℕ → Str → Str × Option Str
cut_at sep [] = ([], none)
cut_at sep (c ∷ s) =
    let (before, after) = cut_at sep s in if c == sep then ([], some s) else (c ∷ before, after)

-- strings.Split by one byte; the text has one part more than separators.
unfoldable pub split : ℕ → Str → List Str
split sep [] = [] ∷ []
split sep (c ∷ s) = elim (split sep s) [
  | [] ↦ []
  | part ∷ parts ↦ if c == sep then [] ∷ part ∷ parts else (c ∷ part) ∷ parts
]

abbrev is_space : ℕ → Bool
is_space c = leb 9 c && leb c 13 || (leb 32 c && leb c 32)

unfoldable pub trim_left : Str → Str
trim_left [] = []
trim_left (c ∷ s) = let rest = trim_left s in if is_space c then rest else c ∷ s

-- strings.TrimSpace on ASCII text
unfoldable pub trim_space : Str → Str
unfolding trim_left
trim_space s = reverse (trim_left (reverse (trim_left s)))

-- strings.TrimSuffix by one byte: one occurrence goes, if there is one.
unfoldable pub trim_suffix : ℕ → Str → Str
trim_suffix sep [] = []
trim_suffix sep (c ∷ []) = if c == sep then [] else c ∷ []
trim_suffix sep (c ∷ d ∷ s) = c ∷ trim_suffix sep (d ∷ s)

abbrev pub reverse_text : Str → Str
reverse_text s = reverse s
