-- ===== src/Exchanges/Okx/Private.antt =====
-- core/exchange/okx_exchange.cpp: the packets of `OkxWebsocketPrivateApi`, by callback, and its login.
use keen_trader.Base.{◌++◌, if◌then◌else◌}
use keen_trader.Base.Text.{AString, codes, str_eq}
use keen_trader.Exchanges.Handler.{◌>>=◌, ◌>>◌, or_throw, skip}
use keen_trader.Exchanges.Json.{JsonApi, field, field_text, text_of, is_text}
use keen_trader.Exchanges.Okx.State.{Env, M, log}
use keen_trader.Exchanges.Okx.Send
use keen_trader.Exchanges.Okx.Account.{on_order, on_account, on_position}
use keen_trader.Exchanges.Okx.Answers.{on_send_order, on_cancel_order}

module _ (env : Env) {J : Type 0} (api : JsonApi J) where
  unfoldable pub on_api_error : J → M (Unit {0})
  on_api_error packet = do
    code ← or_throw (field_text api packet (codes "code"))
    msg ← or_throw (field_text api packet (codes "msg"))
    log (
        codes "Websocket Private API request failed, status code: "
        ++ code
        ++ codes ", message: "
        ++ msg)

  unfoldable pub on_login : J → M (Unit {0})
  on_login packet = do
    code ← or_throw (field api packet (codes "code"))
    if is_text api code (codes "0")
        then log (codes "Websocket Private API login successful") >> Send.subscribe_topic
        else log (codes "Websocket Private API login failed")

  -- The callbacks by name.
  unfoldable pub dispatch : AString → J → M (Unit {0})
  unfolding on_login on_order on_account on_position on_send_order on_cancel_order on_api_error
  dispatch name packet =
      if str_eq name (codes "login")
      then on_login packet
      else if str_eq name (codes "orders")
      then on_order env api packet
      else if str_eq name (codes "account")
      then on_account env api packet
      else if str_eq name (codes "positions")
      then on_position env api packet
      else if str_eq name (codes "order")
      then on_send_order api packet
      else if str_eq name (codes "cancel-order")
      then on_cancel_order api packet
      else if str_eq name (codes "error")
      then on_api_error packet
      else skip

  -- The name of the callback: the event, the operation, or else the channel.
  unfoldable pub callback_name : J → M AString
  callback_name packet =
      let channel : M AString = do
        arg ← or_throw (field api packet (codes "arg"))
        or_throw (field_text api arg (codes "channel"))
      in if api.contains packet (codes "event")
        then or_throw (text_of api (api.at packet (codes "event")))
        else if api.contains packet (codes "op")
        then or_throw (text_of api (api.at packet (codes "op")))
        else channel

  unfoldable pub on_packet : J → M (Unit {0})
  unfolding callback_name dispatch
  on_packet packet = do name ← callback_name packet; dispatch name packet

unfoldable pub on_connected : Env → M (Unit {0})
on_connected env = do log (codes "Websocket Private API connection successful"); Send.login env
