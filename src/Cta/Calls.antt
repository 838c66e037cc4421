-- ===== src/Cta/Calls.antt =====
-- app/cta_strategy/base.h and app/cta_strategy/template.cpp: the orders of `CtaTemplate`.
use keen_trader.Base.{Bool, false}
use keen_trader.Base.Text.{AString}
use keen_trader.Objects.Constant.{Direction, Offset}
use keen_trader.Objects.Market.{Float}

pub data EngineType : Type 0 where
  live : EngineType
  backtesting : EngineType

-- The arguments of `CtaEngine::send_order`.
pub record OrderCall : Type 0 where
  pub direction : Direction
  pub offset : Offset
  pub price : Float
  pub volume : Float
  pub stop : Bool
  pub lock : Bool
  pub net : Bool

pub data Call : Type 0 where
  send : OrderCall → Call
  cancel : AString → Call

-- The four orders, with the default arguments.
unfoldable pub buy : Float → Float → OrderCall
buy price volume = record {
  direction = Direction.long;
  offset = Offset.open_position;
  price = price;
  volume = volume;
  stop = false;
  lock = false;
  net = false;
}

unfoldable pub sell : Float → Float → OrderCall
sell price volume = record {
  direction = Direction.short;
  offset = Offset.close_position;
  price = price;
  volume = volume;
  stop = false;
  lock = false;
  net = false;
}

unfoldable pub short : Float → Float → OrderCall
short price volume = record {
  direction = Direction.short;
  offset = Offset.open_position;
  price = price;
  volume = volume;
  stop = false;
  lock = false;
  net = false;
}

unfoldable pub cover : Float → Float → OrderCall
cover price volume = record {
  direction = Direction.long;
  offset = Offset.close_position;
  price = price;
  volume = volume;
  stop = false;
  lock = false;
  net = false;
}
