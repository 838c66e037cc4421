-- ===== src/Objects/Trading.antt =====
-- core/engine/object.h: orders, trades, positions, accounts, quotes and the requests.
use keen_trader.Base.Int.{ℤ}
use keen_trader.Base.Text.{AString}
use keen_trader.Objects.Constant.{Exchange, Direction, Offset, Status, OrderType}
use keen_trader.Objects.Market.{Float, DateTime}

pub record CancelRequest : Type 0 where
  pub orderid : AString
  pub symbol : AString
  pub exchange : Exchange
  pub kt_symbol : AString

pub record OrderData : Type 0 where
  pub symbol : AString
  pub exchange : Exchange
  pub orderid : AString
  pub type : OrderType
  pub direction : Direction
  pub offset : Offset
  pub price : Float
  pub volume : Float
  pub traded : Float
  pub status : Status
  pub datetime : DateTime
  pub reference : AString
  pub exchange_name : AString
  pub kt_symbol : AString
  pub kt_orderid : AString

pub record TradeData : Type 0 where
  pub symbol : AString
  pub exchange : Exchange
  pub orderid : AString
  pub tradeid : AString
  pub direction : Direction
  pub offset : Offset
  pub price : Float
  pub volume : Float
  pub datetime : DateTime
  pub exchange_name : AString
  pub kt_symbol : AString
  pub kt_orderid : AString
  pub kt_tradeid : AString

pub record PositionData : Type 0 where
  pub symbol : AString
  pub exchange : Exchange
  pub direction : Direction
  pub volume : Float
  pub frozen : Float
  pub price : Float
  pub pnl : Float
  pub yd_volume : Float
  pub exchange_name : AString
  pub kt_symbol : AString
  pub kt_positionid : AString

pub record AccountData : Type 0 where
  pub accountid : AString
  pub balance : Float
  pub frozen : Float
  pub available : Float
  pub exchange_name : AString
  pub kt_accountid : AString

pub record QuoteData : Type 0 where
  pub symbol : AString
  pub exchange : Exchange
  pub quoteid : AString
  pub bid_price : Float
  pub bid_volume : ℤ
  pub ask_price : Float
  pub ask_volume : ℤ
  pub bid_offset : Offset
  pub ask_offset : Offset
  pub status : Status
  pub datetime : DateTime
  pub reference : AString
  pub exchange_name : AString
  pub kt_symbol : AString
  pub kt_quoteid : AString

pub record SubscribeRequest : Type 0 where
  pub symbol : AString
  pub exchange : Exchange
  pub kt_symbol : AString

pub record OrderRequest : Type 0 where
  pub symbol : AString
  pub exchange : Exchange
  pub direction : Direction
  pub type : OrderType
  pub volume : Float
  pub price : Float
  pub offset : Offset
  pub reference : AString
  pub exchange_name : AString
  pub kt_symbol : AString

pub record QuoteRequest : Type 0 where
  pub symbol : AString
  pub exchange : Exchange
  pub bid_price : Float
  pub bid_volume : ℤ
  pub ask_price : Float
  pub ask_volume : ℤ
  pub bid_offset : Offset
  pub ask_offset : Offset
  pub reference : AString
  pub kt_symbol : AString
