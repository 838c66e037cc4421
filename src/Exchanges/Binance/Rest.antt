-- ===== src/Exchanges/Binance/Rest.antt =====
-- core/exchange/binance_linear_exchange.cpp: `BinanceRestApi`, its requests and the handlers of their
-- answers. Asking for past bars is left out.
pub mod Requests
pub mod Answers
pub mod Contracts
pub use keen_trader.Exchanges.Binance.Rest.Contracts.{Filters}
unfoldable pub use keen_trader.Exchanges.Binance.Rest.Requests.{
  with_rest, get, query_time, query_contract, query_order, query_account, query_position,
  keep_user_stream, process_timer_event, real_user_host, testnet_user_host, query_of, sign,
}
unfoldable pub use keen_trader.Exchanges.Binance.Rest.Answers.{
  on_asset, on_query_account, position_with, on_one_position, on_query_position, on_query_time,
  order_with, on_open_order, on_query_order, on_start_user_stream,
}
unfoldable pub use keen_trader.Exchanges.Binance.Rest.Contracts.{
  default_filters, read_number, read_filter, read_filters, contract_of, on_symbol, query_private,
  on_query_contract,
}
