-- ===== src/Volumes/Size.antt =====
-- internal/volume/util/util.go, and the same function of internal/util/util.go: sizes in units.
pub mod Bounds
use edgecenter_ccm.Prelude.{
  ℕ, zero, suc, ◌+◌, ◌-◌, ◌*◌, ◌/◌, ◌%◌, ◌^◌, Bool, true, false, ltb, leb, ◌==◌, nat_eq, int_eq,
  if◌then◌else◌, ℤ, pos, negsuc, failure, Outcome, ok, err,
}

abbrev pub gib : ℕ
gib = 1073741824

-- Go's division by a positive number, which rounds toward zero. `negsuc n` is -(n + 1).
abbrev pub minus : ℕ → ℤ
minus zero = pos 0
minus (suc n) = negsuc n

-- RoundUpSize, for a unit that is not 0; the remainder of a negative number is not positive.
unfoldable pub round_up_size : ℤ → ℕ → ℤ
round_up_size (pos n) unit = pos (if ltb 0 (n % unit) then n / unit + 1 else n / unit)
round_up_size (negsuc n) unit = minus ((n + 1) / unit)

-- int(x): the low `bits` bits, read as a signed number.
abbrev signed : ℕ → ℕ → ℤ
signed bits m = if ltb m (2 ^ (bits - 1)) then pos m else negsuc (2 ^ bits - m - 1)

unfoldable pub to_int : ℕ → ℤ → ℤ
to_int bits (pos n) = signed bits (n % 2 ^ bits)
to_int bits (negsuc n) = signed bits (2 ^ bits - n % 2 ^ bits - 1)

-- RoundUpSizeInt, where int has `bits` bits
unfoldable pub round_up_size_int : ℕ → ℤ → ℕ → Outcome ℤ
unfolding round_up_size to_int
round_up_size_int bits size unit =
    let rounded = round_up_size size unit in
    if to_int bits rounded == rounded
    then ok (to_int bits rounded)
    else err (failure "capacity %v is too great, casting results in integer overflow")

-- RoundUpToGiBInt
unfoldable pub round_up_to_gib_int : ℕ → ℤ → Outcome ℤ
unfolding round_up_size_int
round_up_to_gib_int bits size = round_up_size_int bits size gib
