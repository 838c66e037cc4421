-- ===== src/Exchanges/Binance/Stream.antt =====
-- core/exchange/binance_linear_exchange.cpp: how often a timer keeps the user stream alive.
use keen_trader.Base.{
  List, [], ◌∷◌, ℕ, zero, suc, ◌+◌, ◌/◌, ◌%◌, ◌<◌, ◌≡◌, inl, inr, refl, Bool-cases, true, false,
  some, arith, ltb,
}
use keen_trader.Base.Text.{AString, is_empty, codes}
use keen_trader.Exchanges.Binance.State.{
  BinanceLinearExchange, Output, request, M, ◌>>=◌, ◌>>◌, gets, modify, emit, skip,
}
use keen_trader.Exchanges.Binance.Rest

-- So many timer events, one after the other.
unfoldable pub timers : ℕ → M (Unit {0})
timers zero = skip
timers (suc n) = Rest.process_timer_event >> timers n

abbrev count : BinanceLinearExchange → ℕ
count x = x.rest_api.keep_alive_count

abbrev HasStream : BinanceLinearExchange → Type 0
HasStream x = is_empty x.rest_api.user_stream_key ≡ false

-- The request that keeps the stream, so many times.
abbrev pub keeps : AString → ℕ → List Output
keeps key zero = []
keeps key (suc n) =
    request (record {
      method = codes "PUT";
      path = codes "/fapi/v1/listenKey";
      params = (codes "listenKey", key) ∷ [];
    })
    ∷ keeps key n

-- What one event does: it counts, or asks and starts again.
record IsTick (x : BinanceLinearExchange) (requests c : ℕ) : Type 0 where
  done : (Rest.process_timer_event x).0 ≡ some tt
  counted : count (Rest.process_timer_event x).1 ≡ c
  keeps_key : (Rest.process_timer_event x).1.rest_api.user_stream_key ≡ x.rest_api.user_stream_key
  asked : (Rest.process_timer_event x).2 ≡ keeps x.rest_api.user_stream_key requests

IsTick-early :
    (x : BinanceLinearExchange)
    → HasStream x
    → ltb (count x + 1) 600 ≡ true
    → IsTick x 0 (count x + 1)
unfolding Rest.process_timer_event ◌>>=◌ gets modify
IsTick-early x h early = record {
  done = rw (h, early) refl;
  counted = rw (h, early) refl;
  keeps_key = rw (h, early) refl;
  asked = rw (h, early) refl;
}

IsTick-due :
    (x : BinanceLinearExchange) → HasStream x → ltb (count x + 1) 600 ≡ false → IsTick x 1 0
unfolding Rest.process_timer_event ◌>>=◌ gets modify emit
IsTick-due x h due = record {
  done = rw (h, due) refl;
  counted = rw (h, due) refl;
  keeps_key = rw (h, due) refl;
  asked = rw (h, due) refl;
}

-- From a stream and a count below 600, after so many calls of the timer's handler, which the code registers for no event, the client has sent nothing but the request to put its listen key again, once for every 600 that the count has gone through, and the count is what is left over.
pub timers_ask :
    (n : ℕ) (x : BinanceLinearExchange)
    → HasStream x
    → count x < 600
    → let (r, y, os) = timers n x in
      (r ≡ some tt)
      × (count y ≡ (count x + n) % 600)
      × (os ≡ keeps x.rest_api.user_stream_key ((count x + n) / 600))
unfolding timers skip ◌>>=◌
timers_ask zero x h c =
    let none_due : (count x + 0) / 600 ≡ 0 = omega arith in (refl, omega arith, rw none_due refl)
timers_ask (suc n) x h c = elim (Bool-cases (ltb (count x + 1) 600)) [
  | inl early ↦
      let t = IsTick-early x h early in
      let y = (Rest.process_timer_event x).1 in
      let rest = timers_ask n y (rw t.keeps_key h) (ground (arith, t.counted)) in
      let same : (count y + n) / 600 ≡ (count x + suc n) / 600 = omega (arith, t.counted) in
      rw t.done
        (rest.0, omega (arith, rest.1, t.counted), rw (t.asked, rest.2, t.keeps_key, same) refl)
  | inr due ↦
      let t = IsTick-due x h due in
      let y = (Rest.process_timer_event x).1 in
      let full : count x ≡ 599 = ground arith in
      let rest = timers_ask n y (rw t.keeps_key h) (omega (arith, t.counted)) in
      let more : (count x + suc n) / 600 ≡ suc ((count y + n) / 600) =
        omega (arith, t.counted, full) in
      rw t.done (
        rest.0,
        omega (arith, rest.1, t.counted, full),
        rw (t.asked, rest.2, t.keeps_key, more) refl,
      )
]
