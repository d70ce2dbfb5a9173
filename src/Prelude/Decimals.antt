-- ===== src/Prelude/Decimals.antt =====
-- The decimal texts of numbers: which bytes they lack, and that they tell numbers apart; texts around
-- the first of their separators.
use Prim.Native.Nat.{ℕ, zero, suc, ◌+◌, ◌-◌, ◌*◌, ◌/◌, ◌%◌, ◌<◌}
use mathlib.Core.Path.{◌≡◌, refl, ap, sym, ◌∙◌, subst}
use mathlib.Core.Bool.{false}
use mathlib.Core.Logic.{◌⊎◌, inl, inr}
use mathlib.Core.List.{[], ◌∷◌, ◌++◌}
use native.Mathlib.Omega.{arith}
use package.edgecenter_ccm.Prelude.Tests.{leb, ◌==◌, nat_eq, Bool-cases}
use package.edgecenter_ccm.Prelude.Lists.{any}
use package.edgecenter_ccm.Prelude.Text.{Str, digits, decimal}
use package.edgecenter_ccm.Prelude.Int.{ℤ, pos, negsuc}

abbrev pub Lacks : ℕ → Str → Type 0
Lacks sep s = any (λ c. c == sep) s ≡ false

pub separator_inside : (sep : ℕ) (b q : Str) → ¬ (Lacks sep (b ++ (sep ∷ q)))
separator_inside sep [] q h = ground arith
separator_inside sep (c ∷ b) q h = separator_inside sep b q (ground arith)

pub append-Lacks : (sep : ℕ) (a b : Str) → Lacks sep a → Lacks sep b → Lacks sep (a ++ b)
append-Lacks sep [] b h k = k
append-Lacks sep (c ∷ a) b h k = ground (arith, append-Lacks sep a b (ground arith) k)

-- What stands around the first separator.
pub first_separator :
    (sep : ℕ) (p q a b : Str)
    → Lacks sep p
    → Lacks sep q
    → p ++ (sep ∷ a) ≡ q ++ (sep ∷ b)
    → (p ≡ q) × (a ≡ b)
first_separator sep [] [] a b no_p no_q h = (refl, ground arith)
first_separator sep [] (d ∷ q) a b no_p no_q h = ground arith
first_separator sep (c ∷ p) [] a b no_p no_q h = ground arith
first_separator sep (c ∷ p) (d ∷ q) a b no_p no_q h =
    let (same, rest) = first_separator sep p q a b (ground arith) (ground arith) (ground arith) in
    let head : c ≡ d = ground arith in (ground arith, rest)

-- What stands around the last separator.
pub last_separator :
    (sep : ℕ) (a b p q : Str)
    → Lacks sep p
    → Lacks sep q
    → a ++ (sep ∷ p) ≡ b ++ (sep ∷ q)
    → (a ≡ b) × (p ≡ q)
last_separator sep [] [] p q no_p no_q h = (refl, ground arith)
last_separator sep [] (d ∷ b) p q no_p no_q h =
    let same : p ≡ b ++ (sep ∷ q) = ground arith in
    absurd (separator_inside sep b q (subst (Lacks sep) same no_p))
last_separator sep (c ∷ a) [] p q no_p no_q h =
    let same : a ++ (sep ∷ p) ≡ q = ground arith in
    absurd (separator_inside sep a p (subst (Lacks sep) (sym same) no_q))
last_separator sep (c ∷ a) (d ∷ b) p q no_p no_q h =
    let (same, rest) = last_separator sep a b p q no_p no_q (ground arith) in
    let head : c ≡ d = ground arith in (ground arith, rest)

-- The number that digits stand for, behind a number that was read before.
abbrev read : ℕ → Str → ℕ
read n [] = n
read n (d ∷ ds) = read (10 * n + (d - b'0')) ds

read-append : (n : ℕ) (ds : Str) (d : ℕ) → read n (ds ++ (d ∷ [])) ≡ 10 * read n ds + (d - b'0')
read-append n [] d = refl
read-append n (e ∷ ds) d = read-append (10 * n + (e - b'0')) ds d

read-digits : (f n : ℕ) → n < f → read 0 (digits f n) ≡ n
unfolding digits
read-digits zero n h = ground arith
read-digits (suc f) n h = elim (Bool-cases (leb n 9)) [
  | inl e ↦ rw e (omega arith)
  | inr e ↦
      let large : 9 < n = ground arith in
      rw e (
        read-append 0 (digits f (n / 10)) (b'0' + n % 10)
        ∙ (rw (read-digits f (n / 10) (omega arith)) (omega arith)))
]

pub decimal-injective : (m n : ℕ) → decimal m ≡ decimal n → m ≡ n
unfolding decimal
decimal-injective m n h =
    sym (read-digits (suc m) m (omega arith)) ∙ ap (read 0) h ∙ read-digits (suc n) n (omega arith)

-- A separator that comes before or after the digits is none of them.
digits-Lacks : (sep f n : ℕ) → (sep < b'0') ⊎ (b'9' < sep) → Lacks sep (digits f n)
unfolding digits
digits-Lacks sep zero n h = refl
digits-Lacks sep (suc f) n h = elim (Bool-cases (leb n 9)) [
  | inl e ↦ rw e (ground arith)
  | inr e ↦ rw e (
      append-Lacks sep (digits f (n / 10)) ((b'0' + n % 10) ∷ []) (digits-Lacks sep f (n / 10) h)
        (ground arith))
]

pub decimal-Lacks : (sep n : ℕ) → (sep < b'0') ⊎ (b'9' < sep) → Lacks sep (decimal n)
unfolding decimal
decimal-Lacks sep n h = digits-Lacks sep (suc n) n h

-- `%d` of an int
unfoldable pub int_text : ℤ → Str
int_text (pos n) = decimal n
int_text (negsuc n) = b'-' ∷ decimal (suc n)

pub int_text-Lacks : (i : ℤ) → Lacks b'/' (int_text i)
unfolding int_text nat_eq decimal
int_text-Lacks (pos n) = decimal-Lacks b'/' n (inl (omega arith))
int_text-Lacks (negsuc n) = decimal-Lacks b'/' (suc n) (inl (omega arith))

no_sign : (n : ℕ) (s : Str) → ¬ (decimal n ≡ b'-' ∷ s)
no_sign n s h =
    let lacks : Lacks b'-' (b'-' ∷ s) =
      subst (Lacks b'-') h (decimal-Lacks b'-' n (inl (omega arith))) in
    separator_inside b'-' [] s lacks

pub int_text-injective : (i j : ℤ) → int_text i ≡ int_text j → i ≡ j
unfolding int_text
int_text-injective (pos m) (pos n) h = ap pos (decimal-injective m n h)
int_text-injective (pos m) (negsuc n) h = absurd (no_sign m (decimal (suc n)) h)
int_text-injective (negsuc m) (pos n) h = absurd (no_sign n (decimal (suc m)) (sym h))
int_text-injective (negsuc m) (negsuc n) h =
    let same : suc m ≡ suc n = decimal-injective (suc m) (suc n) (ground arith) in
    ap negsuc (omega arith)
