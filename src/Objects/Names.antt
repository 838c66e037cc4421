-- ===== src/Objects/Names.antt =====
-- core/engine/constant.cpp, the `__post_init__` methods of core/engine/object.h, core/engine/object.cpp
-- and `extract_kt_symbol` of core/engine/utility.cpp. The names of enumerators come from the
-- package magic_enum, which is a parameter.
use keen_trader.Base.{
  Bool, true, false, ◌≡◌, Option, none, some, List, [], ◌∷◌, ◌++◌, if◌then◌else◌,
}
use keen_trader.Base.Int.{pos, ◌-ℤ◌}
use keen_trader.Base.Text.{AString, dot, has_byte, is_empty}
use keen_trader.Objects.Constant.{Exchange, Direction, Status, submitting, not_traded, part_traded}
use keen_trader.Objects.Market.{TickData, BarData, ContractData}
use keen_trader.Objects.Trading.{
  CancelRequest, OrderData, TradeData, PositionData, AccountData, QuoteData, SubscribeRequest,
  OrderRequest, QuoteRequest,
}

-- magic_enum: `enum_name`, and `enum_cast` as its inverse on the names.
pub record EnumNames : Type 0 where
  pub exchange_name : Exchange → AString
  pub exchange_cast : AString → Option Exchange
  pub direction_name : Direction → AString
  pub cast-name : (e : Exchange) → exchange_cast (exchange_name e) ≡ some e
  pub name_plain :
      (e : Exchange)
      → (has_byte dot (exchange_name e) ≡ false) × (is_empty (exchange_name e) ≡ false)

-- Membership in `ACTIVE_STATUSES`.
unfoldable pub is_active_status : Status → Bool
is_active_status submitting = true
is_active_status not_traded = true
is_active_status part_traded = true
is_active_status _ = false

abbrev pub is_active : OrderData → Bool
is_active o = is_active_status o.status

abbrev pub quote_is_active : QuoteData → Bool
quote_is_active q = is_active_status q.status

-- The loop of `StringSplit`, over the piece since `Prev` and the rest of the text.
unfoldable pub split_from : AString → AString → AString → List AString
split_from delim piece [] = if is_empty piece then [] else piece ∷ []
split_from delim piece (c ∷ rest) =
    let cut = piece ∷ split_from delim [] rest in
    let go_on = split_from delim (piece ++ c ∷ []) rest in if has_byte c delim then cut else go_on

unfoldable pub string_split : AString → AString → List AString
unfolding split_from
string_split str delim = split_from delim [] str

module _ (names : EnumNames) where
  unfoldable pub exchange_to_str : Exchange → AString
  exchange_to_str e = names.exchange_name e

  unfoldable pub str_direction : Direction → AString
  str_direction d = names.direction_name d

  -- `none` is a failed `ASSERT`.
  unfoldable pub str_to_exchange : AString → Option Exchange
  str_to_exchange s = names.exchange_cast s

  -- `symbol + "." + exchange_to_str(exchange)`
  unfoldable pub kt_symbol_of : AString → Exchange → AString
  unfolding exchange_to_str
  kt_symbol_of symbol e = symbol ++ dot ∷ exchange_to_str e

  -- The parts of a text; `none` where `ret[0]` or `ret[1]` is out of range.
  unfoldable pub extract_parts : List AString → Option (AString × Exchange)
  unfolding str_to_exchange
  extract_parts [] = none
  extract_parts (symbol ∷ []) = none
  extract_parts (symbol ∷ exchange_str ∷ rest) = elim (str_to_exchange exchange_str) [
    | none ↦ none
    | some e ↦ some (symbol, e)
  ]

  unfoldable pub extract_kt_symbol : AString → Option (AString × Exchange)
  unfolding extract_parts string_split
  extract_kt_symbol kt_symbol = extract_parts (string_split kt_symbol (dot ∷ []))

  unfoldable pub tick_post_init : TickData → TickData
  unfolding kt_symbol_of
  tick_post_init t = record t { kt_symbol = kt_symbol_of t.symbol t.exchange }

  unfoldable pub bar_post_init : BarData → BarData
  unfolding kt_symbol_of
  bar_post_init b = record b { kt_symbol = kt_symbol_of b.symbol b.exchange }

  unfoldable pub cancel_post_init : CancelRequest → CancelRequest
  unfolding kt_symbol_of
  cancel_post_init r = record r { kt_symbol = kt_symbol_of r.symbol r.exchange }

  unfoldable pub order_post_init : OrderData → OrderData
  unfolding kt_symbol_of
  order_post_init o = record o {
    kt_symbol = kt_symbol_of o.symbol o.exchange;
    kt_orderid = o.exchange_name ++ dot ∷ o.orderid;
  }

  unfoldable pub trade_post_init : TradeData → TradeData
  unfolding kt_symbol_of
  trade_post_init t = record t {
    kt_symbol = kt_symbol_of t.symbol t.exchange;
    kt_orderid = t.exchange_name ++ dot ∷ t.orderid;
    kt_tradeid = t.exchange_name ++ dot ∷ t.tradeid;
  }

  unfoldable pub position_post_init : PositionData → PositionData
  unfolding kt_symbol_of str_direction
  position_post_init p = record p {
    kt_symbol = kt_symbol_of p.symbol p.exchange;
    kt_positionid = kt_symbol_of p.symbol p.exchange ++ dot ∷ str_direction p.direction;
  }

  unfoldable pub contract_post_init : ContractData → ContractData
  unfolding kt_symbol_of
  contract_post_init c = record c { kt_symbol = kt_symbol_of c.symbol c.exchange }

  -- The last field is made of itself, not of `quoteid`.
  unfoldable pub quote_post_init : QuoteData → QuoteData
  unfolding kt_symbol_of
  quote_post_init q = record q {
    kt_symbol = kt_symbol_of q.symbol q.exchange;
    kt_quoteid = q.exchange_name ++ dot ∷ q.kt_quoteid;
  }

  unfoldable pub subscribe_post_init : SubscribeRequest → SubscribeRequest
  unfolding kt_symbol_of
  subscribe_post_init r = record r { kt_symbol = kt_symbol_of r.symbol r.exchange }

  unfoldable pub request_post_init : OrderRequest → OrderRequest
  unfolding kt_symbol_of
  request_post_init r = record r { kt_symbol = kt_symbol_of r.symbol r.exchange }

  unfoldable pub create_cancel_request : OrderData → CancelRequest
  unfolding cancel_post_init
  create_cancel_request o =
      cancel_post_init
        (record { orderid = o.orderid; symbol = o.symbol; exchange = o.exchange; kt_symbol = [] })

  unfoldable pub create_order_data : OrderRequest → AString → AString → OrderData
  unfolding order_post_init
  create_order_data r orderid exchange_name = order_post_init (record {
    symbol = r.symbol;
    exchange = r.exchange;
    orderid = orderid;
    type = r.type;
    direction = r.direction;
    offset = r.offset;
    price = r.price;
    volume = r.volume;
    traded = pos 0;
    status = submitting;
    datetime = 0;
    reference = r.reference;
    exchange_name = exchange_name;
    kt_symbol = [];
    kt_orderid = [];
  })

  unfoldable pub create_quote_cancel_request : QuoteData → CancelRequest
  unfolding cancel_post_init
  create_quote_cancel_request q =
      cancel_post_init
        (record { orderid = q.quoteid; symbol = q.symbol; exchange = q.exchange; kt_symbol = [] })

  unfoldable pub create_quote_data : QuoteRequest → AString → AString → QuoteData
  unfolding quote_post_init
  create_quote_data r quoteid exchange_name = quote_post_init (record {
    symbol = r.symbol;
    exchange = r.exchange;
    quoteid = quoteid;
    bid_price = r.bid_price;
    bid_volume = r.bid_volume;
    ask_price = r.ask_price;
    ask_volume = r.ask_volume;
    bid_offset = r.bid_offset;
    ask_offset = r.ask_offset;
    status = submitting;
    datetime = 0;
    reference = r.reference;
    exchange_name = exchange_name;
    kt_symbol = [];
    kt_quoteid = [];
  })

unfoldable pub account_post_init : AccountData → AccountData
account_post_init a = record a {
  available = a.balance -ℤ a.frozen;
  kt_accountid = a.exchange_name ++ dot ∷ a.accountid;
}
