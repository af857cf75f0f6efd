-- ===== src/Money/Examples.antt =====
-- The rounding of 2.345 by `money` (src/cash/engine.py).
use tagro_echo_os.Base.{pos, with_sign, magnitude, ◌+◌, ◌*◌, ◌<◌, ◌≤◌, ◌≡◌}
use tagro_echo_os.Money.{Decimal, money}
use tagro_echo_os.Money.Rounding.{money-nearest}

abbrev amount : Decimal
amount = record { coeff = pos 2345; places = 3 }

money-nearest_example :
    (2 * 234500 < 2 * (magnitude (money amount).coeff * 1000) + 1000)
    × (2 * (magnitude (money amount).coeff * 1000) ≤ 2 * 234500 + 1000)
    × ((money amount).coeff ≡ with_sign (pos 2345) (magnitude (money amount).coeff))
money-nearest_example = money-nearest amount
