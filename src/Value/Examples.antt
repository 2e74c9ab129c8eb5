-- ===== src/Value/Examples.antt =====
-- Values compared and stored.
use minidb.Prelude.{◌≡◌, refl}
use minidb.Prelude.Order.{less, same, lex}
use minidb.Value.{number_value, int32_type, float_type, compare}

-- -1 and 1, and the two zeros of a float.
negative_first : compare (number_value int32_type 4294967295) (number_value int32_type 1) ≡ less
unfolding compare lex
negative_first = refl

zeros_same : compare (number_value float_type 2147483648) (number_value float_type 0) ≡ same
unfolding compare lex
zeros_same = refl
