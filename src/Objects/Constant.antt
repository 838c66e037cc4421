-- ===== src/Objects/Constant.antt =====
-- core/engine/constant.h: the enumerations.

pub data Direction : Type 0 where
  long short net : Direction

pub data Offset : Type 0 where
  none open_position close_position close_today close_yesterday : Offset

pub data Status : Type 0 where
  submitting not_traded part_traded all_traded cancelled rejected : Status

pub data Product : Type 0 where
  equity futures option index forex spot etf bond warrant spread fund cfd swap : Product

pub data OrderType : Type 0 where
  limit market stop fak fok rfq : OrderType

pub data OptionType : Type 0 where
  none call put : OptionType

pub data Exchange : Type 0 where
  cffex shfe czce dce ine gfex sse szse bse shhk szhk sge wxe cfets xbond : Exchange
  smart nyse nasdaq arca edgea island bats iex amex tse nymex comex globex idealpro : Exchange
  cme ice sehk hkfe sgx cbot cboe cfe dme eurex apex lme bmd tocom eunx krx otc : Exchange
  ibkrats local bitmex okx huobi bitfinex binance bybit coinbase bitstamp : Exchange

pub data Interval : Type 0 where
  none minute hour daily weekly tick : Interval

pub data PositionMode : Type 0 where
  one_way hedge : PositionMode
