-- ===== src/Lib.antt =====
-- KeenTrader: the logic of the trading engine, and what it is shown to do.
--
-- The program. Exchanges put events (ticks, orders, trades, positions, accounts, contracts, quotes) into an event
-- emitter (core/event/event.cpp). A worker thread takes them from its queue and posts them, and a strand runs
-- `_process`, which calls the registered handlers. `OmsEngine` (core/engine/engine.cpp) keeps the latest data of each key
-- and the active orders. Its offset converters (core/engine/converter.cpp) keep a holding for each symbol, with today's,
-- yesterday's and frozen volumes, and split an order request by offset. `CtaEngine` (app/cta_strategy/engine.cpp) runs
-- strategies: it passes ticks, orders and trades to them, keeps their positions and local stop orders, and sends
-- and cancels their orders. `BinanceLinearExchange` (core/exchange/binance_linear_exchange.cpp) and `OkxExchange`
-- (core/exchange/okx_exchange.cpp) are clients of exchanges: they turn requests into packets, and packets and answers
-- into data that they put as events. `BarGenerator` (core/engine/utility.cpp) makes bars from ticks and window bars from bars.
--
-- The files.
--   Base: the native numbers, integers, texts as lists of bytes, maps and sets, with their lemmas and rulesets.
--   Objects: core/engine/constant.h, constant.cpp, object.h and object.cpp, and `extract_kt_symbol` of utility.cpp. Names has the
--     `__post_init__` methods and the requests that create other data, Ids what holds of symbols and ids.
--   Converter: core/engine/converter.cpp. Holding is the state of `PositionHolding` and the methods that change it, Convert its
--     three conversions, Dispatch the class `OffsetConverter`. Trades, Frozen, Swaps, Reorder, Volumes, Net
--     and Lock have the proofs.
--   Oms: `OmsEngine`. Engine has the handlers and the queries, Consistent, History, Listed and Converters the proofs.
--   Events: core/event/event.cpp. Handlers is the registration, Queue the queue between the threads, with the signal of
--     core/api/OSSupport/Event.cpp and the main loop of core/api/EventLoop.cpp, which a handler's exception ends; Drain shows that the worker wakes.
--   Bars: `BarGenerator`. Generator has the methods, Ticks and Windows the proofs.
--   Cta: app/cta_strategy. Calls and TargetPos are template.cpp, with the proofs in Targets. Objects, Events, Send, StopOrders, Orders and
--     Strategies are engine.cpp, with the proofs in Positions, Sent, Stops, Tracked, Stopped, Kept, Ended and
--     Histories. Rounding is `round_to` of
--     core/engine/utility.cpp.
--   Exchanges: Base is core/engine/exchange.cpp, with what `OmsEngine` gets of its events in Received; Crypto is
--     core/exchange/crypto_exchange.cpp; Utils is core/exchange/utils.cpp, `URLEncode` and the change of case of core/api/StringUtils.cpp;
--     Json is the interface to the JSON package, with `JsonToFloat`. Under Binance, State has the client's state and the calls that its
--     handlers make, Names its tables, Linear, Trade, Md, User and Rest its five classes, Connect how they are connected and
--     closed. Run has the histories of its inputs; Keeps and Stable show what every input keeps; Ids, Distinct, Rejects,
--     Reconnect, Echo, Readback, Lost and Stream have the other proofs.
--     Under Okx, State and Names are as there; Client is `OkxExchange`, Public is one websocket class, Send, Account, Answers and Private
--     are the other, Rest and Connect the REST class and connecting. Orders and Updates have the proofs. Handler has the
--     calls of the handlers of both clients, Keeps what they keep, Ticks the ticks that both fill.
--   Tests: the theorems at concrete inputs.
--
-- How the code is read.
--   A method is a function from a state to a state; where it may fail it returns an option, whose `none` is an access to an
--   object that is not there, an uncaught exception, or a division by zero, as the function's comment says.
--   Callbacks, calls of exchanges, events and files are outputs in the order in which the code makes them. The callbacks of a strategy are
--   those of `CtaTemplate`, which do nothing: what a strategy calls from one is a further operation.
--   A `float` is an integer in a fixed unit, in which `one` is 1.0: sums and comparisons are exact, the rounding to 24
--   bits is not modelled. A float stored in an `int` is cut to whole multiples of `one`. A `DateTime` is milliseconds.
--   A map is an association list in the order of its keys. An unordered map is one too, in the order in
--   which it is walked. A pointer to a strategy is its address in a store, and strategies are never deleted.
--   A strategy's name that the code looks up and that is not there gives `none` at the lookup; the code goes on until it uses
--   the null pointer, so it can still send the order of a stop order whose strategy is gone.
--   An entry of a map that the code erases and then uses is read as it was, and the field `dangling` records that the behaviour
--   is undefined from there on.
--   A handler of a client of an exchange takes the client to an optional result, the client after it and what it put and sent. An exception is
--   no result: what was done before it stays, since the caller of the handler catches it and logs. A history of inputs goes on after
--   one. `round_to` of a step that it cannot divide by is read the same way. The parts of the client that share a name or a key keep
--   copies, which are never changed apart.
--   Every loop is structural recursion on a list. The decimal text of a number takes as many steps as the number and
--   one, which is enough, since each step divides by ten. The only bound on a machine integer is that of the `int` in `round_to`; counters,
--   the numbers of requests and the count of orders among them, do not overflow in practice.
--
-- Parameters. The names of enumerators come from the package magic_enum (`EnumNames`, with the cast as the inverse of the names). What an
-- exchange answers to a request, and what the engine answers to a target position strategy, are functions. The JSON package is a
-- record of the accessors that the client calls (`JsonApi`) with its documented laws, and of how floats are printed and read (`FloatText`).
-- The clock, its texts, the HMAC of OpenSSL and what prints a packet are in `Env`. For OKX a key or an element that the code reads of a
-- constant JSON value and that is not there, and a null pointer to a contract, are no result too.
--
-- Not modelled: the network clients below both exchanges, `query_history`, proxies, signing of OKX's REST requests and the handlers that
-- only log; `TradeEngine`'s dispatch by name, the log, mail and notice engines, files, settings, dynamic libraries,
-- logging texts of the strategy engine, operating system support, the array manager and the example strategy.
pub mod Base
pub mod Objects
pub mod Converter
pub mod Oms
pub mod Events
pub mod Bars
pub mod Cta
pub mod Exchanges
pub mod Tests
