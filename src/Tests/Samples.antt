-- ===== src/Tests/Samples.antt =====
-- Sample data. The unit of a float is a hundredth.
use keen_trader.Base.{ℕ, ◌*◌, false, []}
use keen_trader.Base.Int.{ℤ, pos, ◌+ℤ◌}
use keen_trader.Base.Text.{AString, codes}
use keen_trader.Objects.Constant.{
  Direction, Offset, Status, Exchange, OrderType, Interval, Product, OptionType,
}
use keen_trader.Objects.Market.{TickData, BarData, ContractData}
use keen_trader.Objects.Trading.{OrderData, TradeData, PositionData, OrderRequest, QuoteRequest}
use keen_trader.Converter.Holding.{Side, PositionHolding}

abbrev pub one : ℕ
one = 100

abbrev pub units : ℕ → ℤ
units n = pos (n * one)

abbrev pub rb : AString
rb = codes "rb2501.SHFE"

abbrev pub rb_contract : ContractData
rb_contract = record {
  symbol = codes "rb2501";
  exchange = Exchange.shfe;
  name = [];
  inst_id_code = pos 0;
  product = Product.futures;
  size = units 10;
  pricetick = units 1;
  min_volume = units 1;
  max_volume = pos 0;
  stop_supported = false;
  history_data = false;
  net_position = false;
  option_strike = pos 0;
  option_underlying = [];
  option_type = OptionType.call;
  option_listed = 0;
  option_expiry = 0;
  option_portfolio = [];
  option_index = [];
  exchange_name = codes "CTP";
  kt_symbol = rb;
}

abbrev pub order_of : AString → Direction → Offset → ℤ → OrderData
order_of orderid direction offset volume = record {
  symbol = codes "rb2501";
  exchange = Exchange.shfe;
  orderid = orderid;
  type = OrderType.limit;
  direction = direction;
  offset = offset;
  price = pos 0;
  volume = volume;
  traded = pos 0;
  status = Status.not_traded;
  datetime = 0;
  reference = [];
  exchange_name = codes "CTP";
  kt_symbol = rb;
  kt_orderid = orderid;
}

abbrev pub trade_of : AString → AString → Direction → Offset → ℤ → TradeData
trade_of orderid tradeid direction offset volume = record {
  symbol = codes "rb2501";
  exchange = Exchange.shfe;
  orderid = orderid;
  tradeid = tradeid;
  direction = direction;
  offset = offset;
  price = pos 0;
  volume = volume;
  datetime = 0;
  exchange_name = codes "CTP";
  kt_symbol = rb;
  kt_orderid = orderid;
  kt_tradeid = tradeid;
}

abbrev pub position_of : Direction → ℤ → ℤ → PositionData
position_of direction volume yd_volume = record {
  symbol = codes "rb2501";
  exchange = Exchange.shfe;
  direction = direction;
  volume = volume;
  frozen = pos 0;
  price = pos 0;
  pnl = pos 0;
  yd_volume = yd_volume;
  exchange_name = codes "CTP";
  kt_symbol = rb;
  kt_positionid = codes "rb2501.SHFE.LONG";
}

abbrev pub request_of : Direction → Offset → ℤ → OrderRequest
request_of direction offset volume = record {
  symbol = codes "rb2501";
  exchange = Exchange.shfe;
  direction = direction;
  type = OrderType.limit;
  volume = volume;
  price = units 35;
  offset = offset;
  reference = [];
  exchange_name = [];
  kt_symbol = rb;
}

abbrev pub quote_request : QuoteRequest
quote_request = record {
  symbol = codes "rb2501";
  exchange = Exchange.shfe;
  bid_price = units 34;
  bid_volume = pos 0;
  ask_price = units 36;
  ask_volume = pos 0;
  bid_offset = Offset.open_position;
  ask_offset = Offset.open_position;
  reference = [];
  kt_symbol = [];
}

abbrev pub tick_at : ℕ → ℤ → ℤ → TickData
tick_at datetime price volume = record {
  symbol = codes "rb2501";
  exchange = Exchange.shfe;
  name = [];
  datetime = datetime;
  exchange_name = codes "CTP";
  volume = volume;
  turnover = pos 0;
  open_interest = pos 0;
  last_price = price;
  last_volume = pos 0;
  limit_up = units 40;
  limit_down = pos 0;
  open_price = pos 0;
  high_price = pos 0;
  low_price = pos 0;
  pre_close = pos 0;
  bid_price_1 = price;
  bid_price_2 = pos 0;
  bid_price_3 = pos 0;
  bid_price_4 = pos 0;
  bid_price_5 = price;
  ask_price_1 = price;
  ask_price_2 = pos 0;
  ask_price_3 = pos 0;
  ask_price_4 = pos 0;
  ask_price_5 = price;
  bid_volume_1 = pos 0;
  bid_volume_2 = pos 0;
  bid_volume_3 = pos 0;
  bid_volume_4 = pos 0;
  bid_volume_5 = pos 0;
  ask_volume_1 = pos 0;
  ask_volume_2 = pos 0;
  ask_volume_3 = pos 0;
  ask_volume_4 = pos 0;
  ask_volume_5 = pos 0;
  kt_symbol = rb;
}

abbrev pub bar_at : ℕ → BarData
bar_at datetime = record {
  exchange_name = [];
  symbol = codes "rb2501";
  exchange = Exchange.shfe;
  datetime = datetime;
  interval = Interval.minute;
  volume = units 5;
  open_interest = pos 0;
  open_price = units 35;
  high_price = units 37;
  low_price = units 34;
  close_price = units 36;
  kt_symbol = rb;
}

abbrev pub side_of : ℤ → ℤ → Side
side_of td yd = record {
  pos = td +ℤ yd;
  yd = yd;
  td = td;
  pos_frozen = pos 0;
  yd_frozen = pos 0;
  td_frozen = pos 0;
}

-- Two lots of today and three of yesterday, long; one of yesterday, short.
abbrev pub rb_holding : PositionHolding
rb_holding = record {
  kt_symbol = rb;
  exchange = Exchange.shfe;
  active_orders = [];
  long_side = side_of (units 2) (units 3);
  short_side = side_of (pos 0) (units 1);
}
