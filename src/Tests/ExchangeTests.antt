-- ===== src/Tests/ExchangeTests.antt =====
-- The theorems on exchanges in general, at concrete data.
use keen_trader.Base.{◌≡◌, refl, List, [], ◌∷◌}
use keen_trader.Base.Int.{pos}
use keen_trader.Base.Text.{AString, codes, utf8}
use keen_trader.Objects.Constant.{Direction, Offset, Status}
use keen_trader.Objects.Trading.{AccountData, QuoteData}
use keen_trader.Oms.Engine.{OmsEvent}
use keen_trader.Exchanges.Base.{
  on_tick, on_trade, on_order, on_position, on_account, on_quote, on_contract, write_log,
}
use keen_trader.Exchanges.Received.{received, received-methods}
use keen_trader.Tests.Samples.{tick_at, trade_of, order_of, position_of, rb_contract, units, rb}
use keen_trader.Objects.Constant.{Exchange}

abbrev account : AccountData
account = record {
  accountid = codes "USDT";
  balance = units 9;
  frozen = pos 0;
  available = units 9;
  exchange_name = codes "CTP";
  kt_accountid = codes "CTP.USDT";
}

abbrev quote : QuoteData
quote = record {
  symbol = codes "rb2501";
  exchange = Exchange.shfe;
  quoteid = codes "1";
  bid_price = units 34;
  bid_volume = pos 1;
  ask_price = units 36;
  ask_volume = pos 1;
  bid_offset = Offset.none;
  ask_offset = Offset.none;
  status = Status.not_traded;
  datetime = 0;
  reference = [];
  exchange_name = codes "CTP";
  kt_symbol = rb;
  kt_quoteid = codes "CTP.1";
}

received-methods_example :
    let t = tick_at 0 (units 35) (units 1) in
    let r =
      trade_of (codes "CTP.1") (codes "CTP.7") Direction.long Offset.open_position (units 1) in
    let o = order_of (codes "CTP.1") Direction.long Offset.open_position (units 2) in
    let p = position_of Direction.long (units 2) (units 1) in
    (received (on_tick t) ≡ OmsEvent.tick t ∷ [])
    × (received (on_trade r) ≡ OmsEvent.trade r ∷ [])
    × (received (on_order o) ≡ OmsEvent.order o ∷ [])
    × (received (on_position p) ≡ OmsEvent.position p ∷ [])
    × (received (on_account account) ≡ OmsEvent.account account ∷ [])
    × (received (on_quote quote) ≡ OmsEvent.quote quote ∷ [])
    × (received (on_contract rb_contract) ≡ OmsEvent.contract rb_contract ∷ [])
    × (received (write_log (codes "CTP") (codes "connected")) ≡ [])
received-methods_example =
    received-methods (tick_at 0 (units 35) (units 1))
      (trade_of (codes "CTP.1") (codes "CTP.7") Direction.long Offset.open_position (units 1))
      (order_of (codes "CTP.1") Direction.long Offset.open_position (units 2))
      (position_of Direction.long (units 2) (units 1)) account quote rb_contract (codes "CTP")
      (codes "connected") refl refl refl refl refl refl

abbrev symbols : List AString
symbols = codes "BTCUSDT" ∷ codes "ETHUSDT" ∷ []

utf8_test : utf8 "为a" ≡ 228 ∷ 184 ∷ 186 ∷ 97 ∷ []
utf8_test = refl
