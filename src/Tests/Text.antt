-- ===== src/Tests/Text.antt =====
-- Printing, parsing and splitting at concrete inputs.
use np_hw.Prelude.{◌≡◌, arith, negsuc, ok}
use np_hw.Prelude.Decimal.{to_string, stoi, stoi-to_string}

stoi-to_string_example : stoi (to_string (negsuc 41)) ≡ ok (negsuc 41)
stoi-to_string_example = stoi-to_string (negsuc 41) (omega arith)
