-- ===== src/Phone/Tests.antt =====
-- Numbers as users write them.
use leader_product_api.Base.{arith, ◌≡◌, refl, some, none, codes}
use leader_product_api.Phone.Laws.{
  IsDigits11, normalize-IsDigits11, normalize_fixed_iff, normalize_spellings,
}
use leader_product_api.Phone.RoundTrip.{
  to_api_phone_string-normalize, normalize-format_digits11_to_display,
}
use leader_product_api.Phone.{
  is_digit, normalize_phone_to_digits11, normalize_phone_to_big_int, to_api_phone_string,
  format_digits11_to_display, print,
}

mobile : normalize_phone_to_digits11 (codes "8 (912) 345-67-89") ≡ some (codes "79123456789")
unfolding normalize_phone_to_digits11 is_digit
mobile = refl

foreign : normalize_phone_to_digits11 (codes "+44 20 7946 0958") ≡ none
unfolding normalize_phone_to_digits11 is_digit
foreign = refl

shown : format_digits11_to_display (codes "9123456789") ≡ some (codes "+7 (912) 345-67-89")
unfolding format_digits11_to_display normalize_phone_to_digits11 is_digit
shown = refl

stored : normalize_phone_to_big_int (codes "9123456789") ≡ some 79123456789
unfolding normalize_phone_to_big_int normalize_phone_to_digits11 is_digit
stored = refl

read_back : to_api_phone_string (some 79123456789) ≡ some (codes "79123456789")
unfolding to_api_phone_string print normalize_phone_to_digits11 is_digit
read_back = refl

normalize-IsDigits11_example : IsDigits11 (codes "79123456789")
normalize-IsDigits11_example =
    normalize-IsDigits11 (codes "8 (912) 345-67-89") (codes "79123456789") mobile

normalize_fixed_iff_example : IsDigits11 (codes "79123456789")
unfolding normalize_phone_to_digits11
normalize_fixed_iff_example = (normalize_fixed_iff (codes "79123456789")).0 refl

normalize_spellings_example :
    normalize_phone_to_digits11 (codes "89123456789") ≡ some (codes "79123456789")
unfolding is_digit
normalize_spellings_example = (normalize_spellings (codes "9123456789") refl (ground arith)).1

to_api_phone_string-normalize_example :
    to_api_phone_string (normalize_phone_to_big_int (codes "9123456789"))
    ≡ normalize_phone_to_digits11 (codes "9123456789")
to_api_phone_string-normalize_example = to_api_phone_string-normalize (codes "9123456789")

normalize-format_digits11_to_display_example :
    normalize_phone_to_digits11 (codes "+7 (912) 345-67-89")
    ≡ normalize_phone_to_digits11 (codes "9123456789")
normalize-format_digits11_to_display_example =
    normalize-format_digits11_to_display (codes "9123456789") (codes "+7 (912) 345-67-89") shown
