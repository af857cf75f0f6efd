-- ===== src/Money/Show.antt =====
-- `str(d)` of a `Decimal`, for the decimals of the model, whose exponent is not positive.
use tagro_echo_os.Base.{
  pos, negsuc, ℕ, zero, suc, ◌+◌, ◌-◌, ◌/◌, ◌%◌, ◌^◌, leb, String, append, show, true, false, ◌≡◌,
  refl, if◌then◌else◌,
}
use tagro_echo_os.Money.{Decimal, hundredths}

digits_from : ℕ → ℕ → ℕ
digits_from zero n = 1
digits_from (suc fuel) n = elim (leb 10 n) [ true ↦ suc (digits_from fuel (n / 10)) | false ↦ 1 ]

-- The number of digits of `n`, at most `n + 1`.
digit_count : ℕ → ℕ
unfolding digits_from
digit_count n = digits_from n n

-- `n` written with `p` digits, zeros in front.
padded : ℕ → ℕ → String
unfolding append show
padded zero n = ""
padded (suc p) n = append (show (n / 10 ^ p % 10)) (padded p n)

-- `n / 10 ^ p` with all its places.
plain : ℕ → ℕ → String
unfolding append show padded
plain n zero = show n
plain n (suc p) = append (show (n / 10 ^ suc p)) (append "." (padded (suc p) (n % 10 ^ suc p)))

-- `n / 10 ^ p` with one digit before the point, and the exponent.
scientific : ℕ → ℕ → String
unfolding append show padded plain digit_count
scientific n p = let k = digit_count n - 1 in append (plain n k) (append "E-" (show (p - k)))

unsigned : ℕ → ℕ → String
unfolding plain scientific digit_count
unsigned n p = if leb (p + 1) (digit_count n + 6) then plain n p else scientific n p

unfoldable pub show_decimal : Decimal → String
unfolding unsigned append
show_decimal d = elim d.coeff [
  | pos n ↦ unsigned n d.places
  | negsuc n ↦ append "-" (unsigned (n + 1) d.places)
]

show_decimal_examples :
    (show_decimal (hundredths (pos 1205)) ≡ "12.05")
    × (show_decimal (hundredths (negsuc 4)) ≡ "-0.05")
    × (show_decimal (record { coeff = pos 0; places = 7 }) ≡ "0E-7")
    × (show_decimal (record { coeff = pos 12; places = 9 }) ≡ "1.2E-8")
    × (show_decimal (record { coeff = pos 1; places = 6 }) ≡ "0.000001")
unfolding show_decimal
show_decimal_examples = (refl, refl, refl, refl, refl)
