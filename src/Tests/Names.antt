-- ===== src/Tests/Names.antt =====
-- The names that magic_enum gives to the exchanges and the directions, and the exchange of a name.
use keen_trader.Base.{◌≡◌, refl, false, Option, none, some, List, [], ◌∷◌, if◌then◌else◌}
use keen_trader.Base.Text.{AString, codes, str_eq, has_byte, dot, is_empty}
use keen_trader.Objects.Constant.{Exchange, Direction, long, short, net}
use keen_trader.Objects.Names.{EnumNames}

abbrev exchange_text : Exchange → AString
exchange_text Exchange.cffex = codes "CFFEX"
exchange_text Exchange.shfe = codes "SHFE"
exchange_text Exchange.czce = codes "CZCE"
exchange_text Exchange.dce = codes "DCE"
exchange_text Exchange.ine = codes "INE"
exchange_text Exchange.gfex = codes "GFEX"
exchange_text Exchange.sse = codes "SSE"
exchange_text Exchange.szse = codes "SZSE"
exchange_text Exchange.bse = codes "BSE"
exchange_text Exchange.shhk = codes "SHHK"
exchange_text Exchange.szhk = codes "SZHK"
exchange_text Exchange.sge = codes "SGE"
exchange_text Exchange.wxe = codes "WXE"
exchange_text Exchange.cfets = codes "CFETS"
exchange_text Exchange.xbond = codes "XBOND"
exchange_text Exchange.smart = codes "SMART"
exchange_text Exchange.nyse = codes "NYSE"
exchange_text Exchange.nasdaq = codes "NASDAQ"
exchange_text Exchange.arca = codes "ARCA"
exchange_text Exchange.edgea = codes "EDGEA"
exchange_text Exchange.island = codes "ISLAND"
exchange_text Exchange.bats = codes "BATS"
exchange_text Exchange.iex = codes "IEX"
exchange_text Exchange.amex = codes "AMEX"
exchange_text Exchange.tse = codes "TSE"
exchange_text Exchange.nymex = codes "NYMEX"
exchange_text Exchange.comex = codes "COMEX"
exchange_text Exchange.globex = codes "GLOBEX"
exchange_text Exchange.idealpro = codes "IDEALPRO"
exchange_text Exchange.cme = codes "CME"
exchange_text Exchange.ice = codes "ICE"
exchange_text Exchange.sehk = codes "SEHK"
exchange_text Exchange.hkfe = codes "HKFE"
exchange_text Exchange.sgx = codes "SGX"
exchange_text Exchange.cbot = codes "CBOT"
exchange_text Exchange.cboe = codes "CBOE"
exchange_text Exchange.cfe = codes "CFE"
exchange_text Exchange.dme = codes "DME"
exchange_text Exchange.eurex = codes "EUREX"
exchange_text Exchange.apex = codes "APEX"
exchange_text Exchange.lme = codes "LME"
exchange_text Exchange.bmd = codes "BMD"
exchange_text Exchange.tocom = codes "TOCOM"
exchange_text Exchange.eunx = codes "EUNX"
exchange_text Exchange.krx = codes "KRX"
exchange_text Exchange.otc = codes "OTC"
exchange_text Exchange.ibkrats = codes "IBKRATS"
exchange_text Exchange.local = codes "LOCAL"
exchange_text Exchange.bitmex = codes "BITMEX"
exchange_text Exchange.okx = codes "OKX"
exchange_text Exchange.huobi = codes "HUOBI"
exchange_text Exchange.bitfinex = codes "BITFINEX"
exchange_text Exchange.binance = codes "BINANCE"
exchange_text Exchange.bybit = codes "BYBIT"
exchange_text Exchange.coinbase = codes "COINBASE"
exchange_text Exchange.bitstamp = codes "BITSTAMP"

abbrev all_exchanges : List Exchange
all_exchanges =
    Exchange.cffex ∷ Exchange.shfe ∷ Exchange.czce ∷ Exchange.dce ∷ Exchange.ine ∷ Exchange.gfex
    ∷ Exchange.sse ∷ Exchange.szse ∷ Exchange.bse ∷ Exchange.shhk ∷ Exchange.szhk ∷ Exchange.sge
    ∷ Exchange.wxe ∷ Exchange.cfets ∷ Exchange.xbond ∷ Exchange.smart ∷ Exchange.nyse
    ∷ Exchange.nasdaq ∷ Exchange.arca ∷ Exchange.edgea ∷ Exchange.island ∷ Exchange.bats
    ∷ Exchange.iex ∷ Exchange.amex ∷ Exchange.tse ∷ Exchange.nymex ∷ Exchange.comex
    ∷ Exchange.globex ∷ Exchange.idealpro ∷ Exchange.cme ∷ Exchange.ice ∷ Exchange.sehk
    ∷ Exchange.hkfe ∷ Exchange.sgx ∷ Exchange.cbot ∷ Exchange.cboe ∷ Exchange.cfe ∷ Exchange.dme
    ∷ Exchange.eurex ∷ Exchange.apex ∷ Exchange.lme ∷ Exchange.bmd ∷ Exchange.tocom ∷ Exchange.eunx
    ∷ Exchange.krx ∷ Exchange.otc ∷ Exchange.ibkrats ∷ Exchange.local ∷ Exchange.bitmex
    ∷ Exchange.okx ∷ Exchange.huobi ∷ Exchange.bitfinex ∷ Exchange.binance ∷ Exchange.bybit
    ∷ Exchange.coinbase ∷ Exchange.bitstamp ∷ []

abbrev find_exchange : AString → List Exchange → Option Exchange
find_exchange s [] = none
find_exchange s (e ∷ es) = if str_eq (exchange_text e) s then some e else find_exchange s es

pub cast_text : (e : Exchange) → find_exchange (exchange_text e) all_exchanges ≡ some e
unfolding str_eq
cast_text Exchange.cffex = refl
cast_text Exchange.shfe = refl
cast_text Exchange.czce = refl
cast_text Exchange.dce = refl
cast_text Exchange.ine = refl
cast_text Exchange.gfex = refl
cast_text Exchange.sse = refl
cast_text Exchange.szse = refl
cast_text Exchange.bse = refl
cast_text Exchange.shhk = refl
cast_text Exchange.szhk = refl
cast_text Exchange.sge = refl
cast_text Exchange.wxe = refl
cast_text Exchange.cfets = refl
cast_text Exchange.xbond = refl
cast_text Exchange.smart = refl
cast_text Exchange.nyse = refl
cast_text Exchange.nasdaq = refl
cast_text Exchange.arca = refl
cast_text Exchange.edgea = refl
cast_text Exchange.island = refl
cast_text Exchange.bats = refl
cast_text Exchange.iex = refl
cast_text Exchange.amex = refl
cast_text Exchange.tse = refl
cast_text Exchange.nymex = refl
cast_text Exchange.comex = refl
cast_text Exchange.globex = refl
cast_text Exchange.idealpro = refl
cast_text Exchange.cme = refl
cast_text Exchange.ice = refl
cast_text Exchange.sehk = refl
cast_text Exchange.hkfe = refl
cast_text Exchange.sgx = refl
cast_text Exchange.cbot = refl
cast_text Exchange.cboe = refl
cast_text Exchange.cfe = refl
cast_text Exchange.dme = refl
cast_text Exchange.eurex = refl
cast_text Exchange.apex = refl
cast_text Exchange.lme = refl
cast_text Exchange.bmd = refl
cast_text Exchange.tocom = refl
cast_text Exchange.eunx = refl
cast_text Exchange.krx = refl
cast_text Exchange.otc = refl
cast_text Exchange.ibkrats = refl
cast_text Exchange.local = refl
cast_text Exchange.bitmex = refl
cast_text Exchange.okx = refl
cast_text Exchange.huobi = refl
cast_text Exchange.bitfinex = refl
cast_text Exchange.binance = refl
cast_text Exchange.bybit = refl
cast_text Exchange.coinbase = refl
cast_text Exchange.bitstamp = refl

pub text_plain :
    (e : Exchange) → (has_byte dot (exchange_text e) ≡ false) × (is_empty (exchange_text e) ≡ false)
text_plain Exchange.cffex = (refl, refl)
text_plain Exchange.shfe = (refl, refl)
text_plain Exchange.czce = (refl, refl)
text_plain Exchange.dce = (refl, refl)
text_plain Exchange.ine = (refl, refl)
text_plain Exchange.gfex = (refl, refl)
text_plain Exchange.sse = (refl, refl)
text_plain Exchange.szse = (refl, refl)
text_plain Exchange.bse = (refl, refl)
text_plain Exchange.shhk = (refl, refl)
text_plain Exchange.szhk = (refl, refl)
text_plain Exchange.sge = (refl, refl)
text_plain Exchange.wxe = (refl, refl)
text_plain Exchange.cfets = (refl, refl)
text_plain Exchange.xbond = (refl, refl)
text_plain Exchange.smart = (refl, refl)
text_plain Exchange.nyse = (refl, refl)
text_plain Exchange.nasdaq = (refl, refl)
text_plain Exchange.arca = (refl, refl)
text_plain Exchange.edgea = (refl, refl)
text_plain Exchange.island = (refl, refl)
text_plain Exchange.bats = (refl, refl)
text_plain Exchange.iex = (refl, refl)
text_plain Exchange.amex = (refl, refl)
text_plain Exchange.tse = (refl, refl)
text_plain Exchange.nymex = (refl, refl)
text_plain Exchange.comex = (refl, refl)
text_plain Exchange.globex = (refl, refl)
text_plain Exchange.idealpro = (refl, refl)
text_plain Exchange.cme = (refl, refl)
text_plain Exchange.ice = (refl, refl)
text_plain Exchange.sehk = (refl, refl)
text_plain Exchange.hkfe = (refl, refl)
text_plain Exchange.sgx = (refl, refl)
text_plain Exchange.cbot = (refl, refl)
text_plain Exchange.cboe = (refl, refl)
text_plain Exchange.cfe = (refl, refl)
text_plain Exchange.dme = (refl, refl)
text_plain Exchange.eurex = (refl, refl)
text_plain Exchange.apex = (refl, refl)
text_plain Exchange.lme = (refl, refl)
text_plain Exchange.bmd = (refl, refl)
text_plain Exchange.tocom = (refl, refl)
text_plain Exchange.eunx = (refl, refl)
text_plain Exchange.krx = (refl, refl)
text_plain Exchange.otc = (refl, refl)
text_plain Exchange.ibkrats = (refl, refl)
text_plain Exchange.local = (refl, refl)
text_plain Exchange.bitmex = (refl, refl)
text_plain Exchange.okx = (refl, refl)
text_plain Exchange.huobi = (refl, refl)
text_plain Exchange.bitfinex = (refl, refl)
text_plain Exchange.binance = (refl, refl)
text_plain Exchange.bybit = (refl, refl)
text_plain Exchange.coinbase = (refl, refl)
text_plain Exchange.bitstamp = (refl, refl)

abbrev direction_text : Direction → AString
direction_text long = codes "LONG"
direction_text short = codes "SHORT"
direction_text net = codes "NET"

abbrev pub names : EnumNames
names = record {
  exchange_name = exchange_text;
  exchange_cast = λ s. find_exchange s all_exchanges;
  direction_name = direction_text;
  cast-name = cast_text;
  name_plain = text_plain;
}
