-- ===== src/Exchanges/Okx/Names.antt =====
-- core/exchange/okx_exchange.cpp: the tables between the exchange's names and the enumerations.
use keen_trader.Base.{ℕ, Bool, true, Option, none, some, [], ◌∷◌}
use keen_trader.Base.Text.{AString, codes}
use keen_trader.Base.Map.{Map, lookup, found_or}
use keen_trader.Objects.Constant.{Direction, Offset, Status, Product, OrderType}

abbrev pub status_okx2kt : Map Status
status_okx2kt =
    (codes "canceled", Status.cancelled)
    ∷ (codes "filled", Status.all_traded)
    ∷ (codes "live", Status.not_traded)
    ∷ (codes "mmp_canceled", Status.cancelled)
    ∷ (codes "partially_filled", Status.part_traded)
    ∷ []

abbrev pub ordertype_okx2kt : Map OrderType
ordertype_okx2kt =
    (codes "fok", OrderType.fok)
    ∷ (codes "ioc", OrderType.fak)
    ∷ (codes "limit", OrderType.limit)
    ∷ (codes "market", OrderType.market)
    ∷ []

abbrev pub direction_okx2kt : Map Direction
direction_okx2kt = (codes "buy", Direction.long) ∷ (codes "sell", Direction.short) ∷ []

-- `SwapMap` of the tables above.
unfoldable pub ordertype_kt2okx : OrderType → Option AString
ordertype_kt2okx OrderType.limit = some (codes "limit")
ordertype_kt2okx OrderType.market = some (codes "market")
ordertype_kt2okx OrderType.fok = some (codes "fok")
ordertype_kt2okx OrderType.fak = some (codes "ioc")
ordertype_kt2okx OrderType.stop = none
ordertype_kt2okx OrderType.rfq = none

unfoldable pub direction_kt2okx : Direction → Option AString
direction_kt2okx Direction.long = some (codes "buy")
direction_kt2okx Direction.short = some (codes "sell")
direction_kt2okx Direction.net = none

abbrev pub product_okx2kt : Map Product
product_okx2kt =
    (codes "FUTURES", Product.futures)
    ∷ (codes "SPOT", Product.spot)
    ∷ (codes "SWAP", Product.swap)
    ∷ []

-- `map[key]` gives the first enumerator for a name that the table has not.
unfoldable pub status_of : AString → Status
unfolding lookup
status_of state = found_or Status.submitting (lookup state status_okx2kt)

unfoldable pub order_type_of : AString → OrderType
unfolding lookup
order_type_of type = found_or OrderType.limit (lookup type ordertype_okx2kt)

unfoldable pub direction_of : AString → Direction
unfolding lookup
direction_of side = found_or Direction.long (lookup side direction_okx2kt)

-- `get_side_pos`
unfoldable pub side_of : Direction → AString
unfolding direction_kt2okx
side_of direction = found_or [] (direction_kt2okx direction)

unfoldable pub pos_side : Direction → Offset → Bool → AString
pos_side Direction.long Offset.open_position true = codes "long"
pos_side Direction.long Offset.close_position true = codes "short"
pos_side Direction.short Offset.open_position true = codes "short"
pos_side Direction.short Offset.close_position true = codes "long"
pos_side direction offset dual = codes "net"

-- The enumerators as numbers, in logs and in `product_ready`.
unfoldable pub order_type_number : OrderType → ℕ
order_type_number OrderType.limit = 0
order_type_number OrderType.market = 1
order_type_number OrderType.stop = 2
order_type_number OrderType.fak = 3
order_type_number OrderType.fok = 4
order_type_number OrderType.rfq = 5

unfoldable pub direction_number : Direction → ℕ
direction_number Direction.long = 0
direction_number Direction.short = 1
direction_number Direction.net = 2

unfoldable pub product_number : Product → ℕ
product_number Product.equity = 0
product_number Product.futures = 1
product_number Product.option = 2
product_number Product.index = 3
product_number Product.forex = 4
product_number Product.spot = 5
product_number Product.etf = 6
product_number Product.bond = 7
product_number Product.warrant = 8
product_number Product.spread = 9
product_number Product.fund = 10
product_number Product.cfd = 11
product_number Product.swap = 12
