-- ===== src/Exchanges/Ticks.antt =====
-- `TickData` of core/engine/object.h as the clients in core/exchange make and fill it.
use keen_trader.Base.{ℕ, zero, suc, []}
use keen_trader.Base.Int.{zero_float}
use keen_trader.Base.Text.{AString}
use keen_trader.Objects.Constant.{Exchange}
use keen_trader.Objects.Market.{Float, DateTime, TickData}

-- A tick with the defaults of its fields.
abbrev pub blank_tick : AString → Exchange → AString → DateTime → AString → TickData
blank_tick symbol exchange name datetime exchange_name = record {
  symbol = symbol;
  exchange = exchange;
  name = name;
  datetime = datetime;
  exchange_name = exchange_name;
  volume = zero_float;
  turnover = zero_float;
  open_interest = zero_float;
  last_price = zero_float;
  last_volume = zero_float;
  limit_up = zero_float;
  limit_down = zero_float;
  open_price = zero_float;
  high_price = zero_float;
  low_price = zero_float;
  pre_close = zero_float;
  bid_price_1 = zero_float;
  bid_price_2 = zero_float;
  bid_price_3 = zero_float;
  bid_price_4 = zero_float;
  bid_price_5 = zero_float;
  ask_price_1 = zero_float;
  ask_price_2 = zero_float;
  ask_price_3 = zero_float;
  ask_price_4 = zero_float;
  ask_price_5 = zero_float;
  bid_volume_1 = zero_float;
  bid_volume_2 = zero_float;
  bid_volume_3 = zero_float;
  bid_volume_4 = zero_float;
  bid_volume_5 = zero_float;
  ask_volume_1 = zero_float;
  ask_volume_2 = zero_float;
  ask_volume_3 = zero_float;
  ask_volume_4 = zero_float;
  ask_volume_5 = zero_float;
  kt_symbol = [];
}

-- One level of the depth: the first five are kept.
unfoldable pub set_bid : ℕ → Float → Float → TickData → TickData
set_bid zero p v t = record t { bid_price_1 = p; bid_volume_1 = v }
set_bid (suc zero) p v t = record t { bid_price_2 = p; bid_volume_2 = v }
set_bid (suc (suc zero)) p v t = record t { bid_price_3 = p; bid_volume_3 = v }
set_bid (suc (suc (suc zero))) p v t = record t { bid_price_4 = p; bid_volume_4 = v }
set_bid (suc (suc (suc (suc zero)))) p v t = record t { bid_price_5 = p; bid_volume_5 = v }
set_bid (suc (suc (suc (suc (suc n))))) p v t = t

unfoldable pub set_ask : ℕ → Float → Float → TickData → TickData
set_ask zero p v t = record t { ask_price_1 = p; ask_volume_1 = v }
set_ask (suc zero) p v t = record t { ask_price_2 = p; ask_volume_2 = v }
set_ask (suc (suc zero)) p v t = record t { ask_price_3 = p; ask_volume_3 = v }
set_ask (suc (suc (suc zero))) p v t = record t { ask_price_4 = p; ask_volume_4 = v }
set_ask (suc (suc (suc (suc zero)))) p v t = record t { ask_price_5 = p; ask_volume_5 = v }
set_ask (suc (suc (suc (suc (suc n))))) p v t = t
