-- ===== src/Exchanges/Crypto.antt =====
-- core/exchange/crypto_exchange.cpp: the position mode and the leverages of an exchange.
use keen_trader.Base.{
  ◌≡◌, refl, Bool, true, false, ◌&&◌, not, none, some, List, [], ◌∷◌, ◌++◌, arith, if◌then◌else◌,
  Bool-cases, inl, inr,
}
use keen_trader.Base.Int.{ℤ, pos, negsuc, leb_ℤ}
use keen_trader.Base.Text.{AString, codes, utf8}
use keen_trader.Base.Lists.{length}
use keen_trader.Base.Map.{Map, lookup, insert, lookup-insert, member}
use keen_trader.Base.Decimal.{decimal, int_text}
use keen_trader.Objects.Constant.{PositionMode, one_way, hedge}
use keen_trader.Exchanges.Base.{Events, write_log}

pub record CryptoExchange : Type 0 where
  pub exchange_name : AString
  pub position_mode : PositionMode
  pub leverage_config : Map ℤ

unfoldable pub new_crypto_exchange : AString → CryptoExchange
new_crypto_exchange name = record {
  exchange_name = name;
  position_mode = one_way;
  leverage_config = [];
}

abbrev mode_text : PositionMode → AString
mode_text one_way = codes "ONE_WAY"
mode_text hedge = codes "HEDGE"

unfoldable pub set_position_mode : PositionMode → CryptoExchange → Bool × CryptoExchange × Events
set_position_mode mode x = (
  true,
  record x { position_mode = mode },
  write_log x.exchange_name (utf8 "设置持仓模式为: " ++ mode_text mode),
)

unfoldable pub set_leverage : AString → ℤ → CryptoExchange → Bool × CryptoExchange × Events
set_leverage symbol leverage x =
    if leb_ℤ leverage (pos 0)
    then (false, x, write_log x.exchange_name (utf8 "杠杆倍数必须大于0，设置失败: " ++ symbol))
    else (
      true,
      record x { leverage_config = insert symbol leverage x.leverage_config },
      write_log x.exchange_name (utf8 "为 " ++ symbol ++ utf8 " 设置杠杆倍数: " ++ int_text leverage),
    )

-- The loop over the symbols; the flag is `all_success`.
unfoldable pub set_each : ℤ → List AString → Bool → CryptoExchange → Bool × CryptoExchange × Events
set_each leverage [] all_success x = (all_success, x, [])
set_each leverage (symbol ∷ symbols) all_success x =
    let (done, x', logs) = set_leverage symbol leverage x in
    let (all, x'', later) = set_each leverage symbols (if done then all_success else false) x' in
    (all, x'', logs ++ later)

unfoldable pub set_leverage_for_all_symbols :
    ℤ → List AString → CryptoExchange → Bool × CryptoExchange × Events
set_leverage_for_all_symbols leverage symbols x =
    if leb_ℤ leverage (pos 0)
    then (false, x, write_log x.exchange_name (utf8 "杠杆倍数必须大于0，批量设置失败"))
    else let (all, x', logs) = set_each leverage symbols true x in
      (
        all,
        x',
        logs
            ++ (if all
                then write_log x.exchange_name (
                    utf8 "成功为 "
                    ++ decimal (length symbols)
                    ++ utf8 " 个交易对设置杠杆倍数: "
                    ++ int_text leverage)
                else write_log x.exchange_name (utf8 "为部分交易对设置杠杆倍数失败，请检查")),
      )

unfoldable pub get_leverage : CryptoExchange → AString → ℤ
get_leverage x symbol = elim (lookup symbol x.leverage_config) [
  | none ↦ negsuc 0
  | some leverage ↦ leverage
]

set_each-get :
    (leverage : ℤ) (symbols : List AString) (x : CryptoExchange) (j : AString)
    → leb_ℤ leverage (pos 0) ≡ false
    → let (all, x', logs) = set_each leverage symbols true x in
      (all ≡ true) × (get_leverage x' j ≡ (if member j symbols then leverage else get_leverage x j))
unfolding set_each set_leverage get_leverage member
set_each-get leverage [] x j h = (refl, refl)
set_each-get leverage (symbol ∷ symbols) x j h =
    let after : CryptoExchange = record x {
      leverage_config = insert symbol leverage x.leverage_config;
    } in
    let rest = set_each-get leverage symbols after j h in
    ground (arith, rest.0, rest.1, lookup-insert symbol j leverage x.leverage_config)

-- Setting one leverage for a list of symbols succeeds exactly when it is positive; then each of them has it and every other symbol what it had, and otherwise every symbol keeps what it had, where a symbol with none set reads as -1.
pub set_leverage_for_all_symbols_get :
    (leverage : ℤ) (symbols : List AString) (x : CryptoExchange) (j : AString)
    → let (all, x', logs) = set_leverage_for_all_symbols leverage symbols x in
      let positive = not (leb_ℤ leverage (pos 0)) in
      (all ≡ positive)
      × (get_leverage x' j ≡ (if positive && member j symbols then leverage else get_leverage x j))
unfolding set_leverage_for_all_symbols
set_leverage_for_all_symbols_get leverage symbols x j = elim (Bool-cases (leb_ℤ leverage (pos 0))) [
  | inl bad ↦ rw bad (refl, refl)
  | inr good ↦ rw good (set_each-get leverage symbols x j good)
]
