-- ===== src/Exchanges/Utils.antt =====
-- core/exchange/utils.cpp: bytes as hexadecimal digits and back, and padding; the order of query
-- strings, by `std::sort`; and `URLEncode` of core/api/StringUtils.cpp.
use keen_trader.Base.{
  ℕ, zero, suc, ◌+◌, ◌-◌, ◌*◌, ◌/◌, ◌%◌, Bool, ◌&&◌, ◌||◌, List, [], ◌∷◌, ◌++◌, if◌then◌else◌, ltb,
  leb, ◌==◌,
}
use keen_trader.Base.Int.{ℤ, pos, sub_ℕ}
use keen_trader.Base.Text.{AString, str_lt}
use keen_trader.Base.Lists.{length}

-- A digit of `hex_str`, in upper case.
unfoldable pub hex_digit : ℕ → ℕ
hex_digit n = if ltb 9 n then b'A' + n - 10 else b'0' + n

-- `hex_str`, with the final zero left off, since the text is read as a C string.
unfoldable pub hex_str : List ℕ → AString
unfolding hex_digit
hex_str [] = []
hex_str (c ∷ inchar) = hex_digit (c / 16 % 16) ∷ hex_digit (c % 16) ∷ hex_str inchar

-- `std::sort` by the keys.
unfoldable pub sort_insert : AString × AString → List (AString × AString) → List (AString × AString)
sort_insert p [] = p ∷ []
sort_insert p (q ∷ qs) = if str_lt q.0 p.0 then q ∷ sort_insert p qs else p ∷ q ∷ qs

unfoldable pub sort_items : List (AString × AString) → List (AString × AString)
unfolding sort_insert
sort_items [] = []
sort_items (p ∷ ps) = sort_insert p (sort_items ps)

-- `key=value` pairs joined by `&`, each value as `encode` writes it.
unfoldable pub join_items : (AString → AString) → List (AString × AString) → AString
join_items encode [] = []
join_items encode ((k, v) ∷ []) = k ++ b'=' ∷ encode v
join_items encode ((k, v) ∷ q ∷ qs) = k ++ b'=' ∷ encode v ++ b'&' ∷ join_items encode (q ∷ qs)

abbrev pub is_alnum : ℕ → Bool
is_alnum c = leb b'0' c && leb c b'9' || leb b'A' c && leb c b'Z' || leb b'a' c && leb c b'z'

unfoldable pub low_hex_digit : ℕ → ℕ
low_hex_digit n = if ltb 9 n then b'a' + n - 10 else b'0' + n

unfoldable pub url_encode : AString → AString
unfolding low_hex_digit
url_encode [] = []
url_encode (c ∷ text) =
    (if is_alnum c
      then c ∷ []
      else if c == 32
      then b'+' ∷ []
      else b'%' ∷ low_hex_digit (c / 16 % 16) ∷ low_hex_digit (c % 16) ∷ [])
    ++ url_encode text

unfoldable pub fill : ℕ → ℕ → AString → AString
fill zero c s = s
fill (suc n) c s = c ∷ fill n c s

-- `Rjust`
unfoldable pub rjust : AString → ℕ → ℕ → AString
unfolding fill
rjust str width fillchar =
    if ltb (length str) width then fill (width - length str) fillchar str else str

-- `StrToLower` and `StrToUpper` of core/api/StringUtils.cpp, in the C locale.
unfoldable pub str_to_lower : AString → AString
str_to_lower [] = []
str_to_lower (c ∷ s) = (if leb b'A' c && leb c b'Z' then c + 32 else c) ∷ str_to_lower s

unfoldable pub str_to_upper : AString → AString
str_to_upper [] = []
str_to_upper (c ∷ s) = (if leb b'a' c && leb c b'z' then c - 32 else c) ∷ str_to_upper s

-- `std::atoll`: white space, a sign, and the digits that follow.
abbrev digits_value : ℕ → AString → ℕ
digits_value n [] = n
digits_value n (c ∷ s) =
    let rest = digits_value (n * 10 + (c - 48)) s in if leb 48 c && leb c 57 then rest else n

abbrev signed_value : AString → ℤ
signed_value [] = pos 0
signed_value (c ∷ s) =
    if c == b'-'
    then sub_ℕ 0 (digits_value 0 s)
    else if c == b'+'
    then pos (digits_value 0 s)
    else pos (digits_value 0 (c ∷ s))

abbrev is_space : ℕ → Bool
is_space c = c == 32 || leb 9 c && leb c 13

unfoldable pub atoll : AString → ℤ
atoll [] = pos 0
atoll (c ∷ s) = let rest = atoll s in if is_space c then rest else signed_value (c ∷ s)
