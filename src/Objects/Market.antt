-- ===== src/Objects/Market.antt =====
-- core/engine/object.h: market data, bars and contracts. A `float` is an integer in a fixed unit, a
-- `DateTime` is milliseconds since the epoch.
use keen_trader.Base.{ℕ, Bool}
use keen_trader.Base.Int.{ℤ}
use keen_trader.Base.Text.{AString}
use keen_trader.Objects.Constant.{Exchange, Interval, Product, OptionType}

abbrev pub Float : Type 0
Float = ℤ

abbrev pub DateTime : Type 0
DateTime = ℕ

pub record TickData : Type 0 where
  pub symbol : AString
  pub exchange : Exchange
  pub name : AString
  pub datetime : DateTime
  pub exchange_name : AString
  pub volume : Float
  pub turnover : Float
  pub open_interest : Float
  pub last_price : Float
  pub last_volume : Float
  pub limit_up : Float
  pub limit_down : Float
  pub open_price : Float
  pub high_price : Float
  pub low_price : Float
  pub pre_close : Float
  pub bid_price_1 : Float
  pub bid_price_2 : Float
  pub bid_price_3 : Float
  pub bid_price_4 : Float
  pub bid_price_5 : Float
  pub ask_price_1 : Float
  pub ask_price_2 : Float
  pub ask_price_3 : Float
  pub ask_price_4 : Float
  pub ask_price_5 : Float
  pub bid_volume_1 : Float
  pub bid_volume_2 : Float
  pub bid_volume_3 : Float
  pub bid_volume_4 : Float
  pub bid_volume_5 : Float
  pub ask_volume_1 : Float
  pub ask_volume_2 : Float
  pub ask_volume_3 : Float
  pub ask_volume_4 : Float
  pub ask_volume_5 : Float
  pub kt_symbol : AString

pub record BarData : Type 0 where
  pub exchange_name : AString
  pub symbol : AString
  pub exchange : Exchange
  pub datetime : DateTime
  pub interval : Interval
  pub volume : Float
  pub open_interest : Float
  pub open_price : Float
  pub high_price : Float
  pub low_price : Float
  pub close_price : Float
  pub kt_symbol : AString

pub record ContractData : Type 0 where
  pub symbol : AString
  pub exchange : Exchange
  pub name : AString
  pub inst_id_code : ℤ
  pub product : Product
  pub size : Float
  pub pricetick : Float
  pub min_volume : Float
  pub max_volume : Float
  pub stop_supported : Bool
  pub history_data : Bool
  pub net_position : Bool
  pub option_strike : Float
  pub option_underlying : AString
  pub option_type : OptionType
  pub option_listed : ℕ
  pub option_expiry : ℕ
  pub option_portfolio : AString
  pub option_index : AString
  pub exchange_name : AString
  pub kt_symbol : AString
