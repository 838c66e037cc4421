-- ===== src/Exchanges/Binance/Names.antt =====
-- core/exchange/binance_linear_exchange.cpp: the tables between the exchange's names and the enumerations.
use keen_trader.Base.{Option, none, some, [], ◌∷◌, if◌then◌else◌}
use keen_trader.Base.Text.{AString, codes, str_eq}
use keen_trader.Base.Map.{Map, lookup, found_or}
use keen_trader.Objects.Constant.{Direction, Status, Product, OrderType}

abbrev pub product_binance2kt : Map Product
product_binance2kt =
    (codes "CURRENT_MONTH", Product.futures)
    ∷ (codes "CURRENT_QUARTER", Product.futures)
    ∷ (codes "NEXT_MONTH", Product.futures)
    ∷ (codes "NEXT_QUARTER", Product.futures)
    ∷ (codes "PERPETUAL", Product.swap)
    ∷ (codes "PERPETUAL_DELIVERING", Product.swap)
    ∷ []

abbrev pub status_binance2kt : Map Status
status_binance2kt =
    (codes "CANCELED", Status.cancelled)
    ∷ (codes "EXPIRED", Status.cancelled)
    ∷ (codes "FILLED", Status.all_traded)
    ∷ (codes "NEW", Status.not_traded)
    ∷ (codes "PARTIALLY_FILLED", Status.part_traded)
    ∷ (codes "REJECTED", Status.rejected)
    ∷ []

abbrev pub direction_binance2vt : Map Direction
direction_binance2vt = (codes "BUY", Direction.long) ∷ (codes "SELL", Direction.short) ∷ []

unfoldable pub direction_vt2binance : Direction → Option AString
direction_vt2binance Direction.long = some (codes "BUY")
direction_vt2binance Direction.short = some (codes "SELL")
direction_vt2binance Direction.net = none

unfoldable pub ordertype_vt2binance : OrderType → Option AString
ordertype_vt2binance OrderType.market = some (codes "MARKET")
ordertype_vt2binance OrderType.stop = some (codes "STOP_MARKET")
ordertype_vt2binance OrderType.limit = some (codes "LIMIT")
ordertype_vt2binance OrderType.fak = some (codes "LIMIT")
ordertype_vt2binance OrderType.fok = some (codes "LIMIT")
ordertype_vt2binance OrderType.rfq = none

abbrev pub ordertype_binance2vt : Map OrderType
ordertype_binance2vt =
    (codes "LIMIT", OrderType.limit)
    ∷ (codes "MARKET", OrderType.market)
    ∷ (codes "STOP_MARKET", OrderType.stop)
    ∷ []

unfoldable pub status_of : AString → Status
unfolding lookup
status_of status = found_or Status.not_traded (lookup status status_binance2kt)

abbrev by_tif : AString → OrderType → OrderType
by_tif tif OrderType.limit =
    if str_eq tif (codes "IOC")
    then OrderType.fak
    else if str_eq tif (codes "FOK")
    then OrderType.fok
    else OrderType.limit
by_tif tif other = other

-- The order type of an exchange's type and `timeInForce`.
unfoldable pub order_type_of : AString → AString → OrderType
unfolding lookup
order_type_of type tif = by_tif tif (found_or OrderType.limit (lookup type ordertype_binance2vt))

unfoldable pub direction_of : AString → Direction
unfolding lookup
direction_of side = found_or Direction.long (lookup side direction_binance2vt)

-- What `send_order` puts for a direction and a type.
unfoldable pub side_of : Direction → AString
unfolding direction_vt2binance
side_of direction = found_or (codes "BUY") (direction_vt2binance direction)

unfoldable pub type_of : OrderType → AString
unfolding ordertype_vt2binance
type_of type = found_or (codes "LIMIT") (ordertype_vt2binance type)

unfoldable pub tif_of : OrderType → AString
tif_of OrderType.fak = codes "IOC"
tif_of OrderType.fok = codes "FOK"
tif_of _ = codes "GTC"
