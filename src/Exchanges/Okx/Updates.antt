-- ===== src/Exchanges/Okx/Updates.antt =====
-- core/exchange/okx_exchange.cpp: updates of orders that the private API does not pass on.
use keen_trader.Base.{◌≡◌, refl, true, none, some, List, [], ◌∷◌}
use keen_trader.Base.Text.{codes}
use keen_trader.Exchanges.Handler.{Reply, ◌>>=◌, continue, or_throw}
use keen_trader.Exchanges.Json.{JsonApi, field, is_text}
use keen_trader.Exchanges.Okx.State.{OkxExchange, Env}
use keen_trader.Exchanges.Okx.Client
use keen_trader.Exchanges.Okx.Account

-- What follows a result does not matter where the next step does not.
continue_same :
    {S O A B : Type 0} (f g : A → S → Reply S O B) (r : Reply S O A)
    → ((a : A) (x : S) → f a x ≡ g a x)
    → continue f r ≡ continue g r
continue_same f g (none, x, os) h = refl
continue_same f g (some a, x, os) h = rw (h a x) refl

module _ (env : Env) {J : Type 0} (api : JsonApi J) where
  -- In a message of orders the first update without a fill ends the handling: what the message says of the orders after it, fills included, is as if it were not there, whatever the state of the client.
  pub on_orders_stops :
      (d filled : J) (ds : List J) (x : OkxExchange)
      → field api d (codes "fillSz") ≡ some filled
      → is_text api filled (codes "0") ≡ true
      → Account.on_orders env api (d ∷ ds) x ≡ Account.on_orders env api (d ∷ []) x
  unfolding Account.on_orders ◌>>=◌ or_throw
  on_orders_stops d filled ds x there no_fill =
      continue_same _ _ (Client.parse_order_data env api d x)
        (λ order y. continue_same _ _ (Client.on_order order y) (λ _ z. rw (there, no_fill) refl))
