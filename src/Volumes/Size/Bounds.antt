-- ===== src/Volumes/Size/Bounds.antt =====
-- The sizes of internal/volume/util/util.go cover the request, with less than a unit to spare, and
-- the cast to int is refused exactly when it would change the number.
use native.Mathlib.Nat.{div-add-mod', mod-lt, mod-eq_of_lt, add-mul, two-pow-succ, one-le-pow}
use edgecenter_ccm.Prelude.{
  ℕ, suc, ◌+◌, ◌-◌, ◌*◌, ◌/◌, ◌%◌, ◌^◌, ◌≤◌, ◌<◌, ltb, ◌==◌, int_eq, if◌then◌else◌, ℤ, pos, negsuc,
  Outcome, ok, err, ◌≡◌, refl, arith, Bool-cases, inl, inr, ◌↔◌, failure,
}
use edgecenter_ccm.Volumes.Size.{round_up_size_int}

abbrev rounded : ℕ → ℕ → ℕ
rounded n unit = if ltb 0 (n % unit) then n / unit + 1 else n / unit

rounded-Covers :
    (n unit : ℕ) → 0 < unit → (n ≤ rounded n unit * unit) × (rounded n unit * unit < n + unit)
rounded-Covers n unit h = elim (Bool-cases (ltb 0 (n % unit))) [
  | inl e ↦ rw e (ground (arith, div-add-mod' n unit, mod-lt n h, add-mul (n / unit) 1 unit))
  | inr e ↦ rw e (ground (arith, div-add-mod' n unit, mod-lt n h))
]

-- A number that is wrapped at `m` and read as signed is itself exactly below half of `m`.
wrapped : ℕ → ℕ → ℕ → ℤ
wrapped m half q = if ltb (q % m) half then pos (q % m) else negsuc (m - q % m - 1)

wrapped-eq_iff :
    (m half q : ℕ) → m ≡ half + half → 0 < half → (wrapped m half q ≡ pos q) ↔ (q < half)
unfolding wrapped
wrapped-eq_iff m half q double some_half = elim (Bool-cases (ltb (q % m) half)) [
  | inl e ↦
      (λ h. ground arith, λ h. let same : q % m ≡ q = mod-eq_of_lt (omega arith) in ground arith)
  | inr e ↦
      (λ h. ground arith, λ h. let same : q % m ≡ q = mod-eq_of_lt (omega arith) in ground arith)
]

-- The cast that is compared with its argument.
checked : ℤ → ℤ → Outcome ℤ
checked cast z =
    if cast == z
    then ok cast
    else err (failure "capacity %v is too great, casting results in integer overflow")

checked-eq-ok : (cast z r : ℤ) → (checked cast z ≡ ok r) ↔ ((cast ≡ z) × (r ≡ z))
unfolding checked
checked-eq-ok cast z r = elim (Bool-cases (cast == z)) [
  | inl e ↦ (λ h. ground arith, λ h. ground arith)
  | inr e ↦ (λ h. ground arith, λ h. ground arith)
]

as_checked :
    (b n unit : ℕ)
    → round_up_size_int (suc b) (pos n) unit
      ≡ checked (wrapped (2 ^ suc b) (2 ^ b) (rounded n unit)) (pos (rounded n unit))
unfolding round_up_size_int checked wrapped
as_checked b n unit = let e : suc b - 1 ≡ b = omega arith in rw e refl

-- Where int has `b + 1` bits, a size that is not negative is rounded up to whole units, of which the
-- last is needed; the result is returned exactly when it is below 2 ^ b, and else the overflow is
-- reported.
pub round_up_size_int-Covers :
    (b n unit : ℕ)
    → 0 < unit
    → (q : ℕ) × (n ≤ q * unit)
      × (q * unit < n + unit)
      × ((round_up_size_int (suc b) (pos n) unit ≡ ok (pos q)) ↔ (q < 2 ^ b))
      × ((r : ℤ) → round_up_size_int (suc b) (pos n) unit ≡ ok r → r ≡ pos q)
round_up_size_int-Covers b n unit h =
    let (enough, tight) = rounded-Covers n unit h in
    let q = rounded n unit in
    let fits =
      wrapped-eq_iff (2 ^ suc b) (2 ^ b) q (two-pow-succ b) (one-le-pow b 2 (omega arith)) in
    let cast = checked-eq-ok (wrapped (2 ^ suc b) (2 ^ b) q) (pos q) in
    (
      q,
      enough,
      tight,
      rw (as_checked b n unit)
          (λ e. fits.0 ((cast (pos q)).0 e).0, λ e. (cast (pos q)).1 (fits.1 e, refl)),
      λ r. rw (as_checked b n unit) (λ e. ((cast r).0 e).1),
    )
