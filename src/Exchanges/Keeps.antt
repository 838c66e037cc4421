-- ===== src/Exchanges/Keeps.antt =====
-- The handlers of the clients in core/exchange: predicates on a client that every handler keeps, from
-- what keeps them in the few places that change the state.
use keen_trader.Base.{Bool, true, false, Option, none, some, List, [], ◌∷◌, if◌then◌else◌}
use keen_trader.Exchanges.Handler.{
  Handler, Reply, continue, ◌>>=◌, pure, gets, modify, emit, emit_all, or_throw, if_found, skip,
  for_each,
}

-- `m` keeps `P`, whether it returns or throws.
pub record Keeps {S O A : Type 0} (P : S → Type 0) (m : Handler S O A) : Type 0 where
  pub kept : (x : S) → P x → P (m x).1

module _ {S O A : Type 0} {P : S → Type 0} where
  pub Keeps-pure : (a : A) → Keeps {S = S} {O = O} P (pure a)
  unfolding pure
  Keeps-pure a = record { kept = λ x h. h }

  pub Keeps-gets : (f : S → A) → Keeps {S = S} {O = O} P (gets f)
  unfolding gets
  Keeps-gets f = record { kept = λ x h. h }

  pub Keeps-or_throw : (o : Option A) → Keeps {S = S} {O = O} P (or_throw o)
  unfolding or_throw
  Keeps-or_throw o = record { kept = λ x h. h }

  pub Keeps-if :
      (b : Bool) (m n : Handler S O A) → Keeps P m → Keeps P n → Keeps P (if b then m else n)
  Keeps-if true m n km kn = km
  Keeps-if false m n km kn = kn

  Keeps-continue :
      {B : Type 0} (f : B → Handler S O A) (r : Reply S O B)
      → ((b : B) → Keeps P (f b))
      → P r.1
      → P (continue f r).1
  Keeps-continue f (none, x, os) kf h = h
  Keeps-continue f (some b, x, os) kf h = (kf b).kept x h

module _ {S O : Type 0} {P : S → Type 0} where
  pub Keeps-skip : Keeps {S = S} {O = O} P skip
  unfolding skip
  Keeps-skip = record { kept = λ x h. h }

  pub Keeps-emit : (o : O) → Keeps P (emit o)
  unfolding emit
  Keeps-emit o = record { kept = λ x h. h }

  pub Keeps-emit_all : (os : List O) → Keeps P (emit_all os)
  unfolding emit_all
  Keeps-emit_all os = record { kept = λ x h. h }

  pub Keeps-modify : (f : S → S) → ((x : S) → P x → P (f x)) → Keeps {S = S} {O = O} P (modify f)
  unfolding modify
  Keeps-modify f k = record { kept = k }

module _ {S O A B : Type 0} {P : S → Type 0} where
  pub Keeps-bind :
      (m : Handler S O A) (f : A → Handler S O B)
      → Keeps P m
      → ((a : A) → Keeps P (f a))
      → Keeps P (m >>= f)
  unfolding ◌>>=◌
  Keeps-bind m f km kf = record { kept = λ x h. Keeps-continue f (m x) kf (km.kept x h) }

  pub Keeps-if_found :
      (o : Option A) (m : Handler S O B) (f : A → Handler S O B)
      → Keeps P m
      → ((a : A) → Keeps P (f a))
      → Keeps P (if_found o m f)
  unfolding if_found
  Keeps-if_found none m f km kf = km
  Keeps-if_found (some a) m f km kf = kf a

pub Keeps-for_each :
    {S O A : Type 0} {P : S → Type 0} (as' : List A) (body : A → Handler S O (Unit {0}))
    → ((a : A) → Keeps P (body a))
    → Keeps P (for_each as' body)
unfolding for_each
Keeps-for_each [] body k = Keeps-skip
Keeps-for_each (a ∷ as') body k =
    Keeps-bind (body a) (λ _. for_each as' body) (k a) (λ _. Keeps-for_each as' body k)

pub ruleset keeps_rules = (
  Keeps-pure, Keeps-gets, Keeps-or_throw, Keeps-if, Keeps-skip, Keeps-emit, Keeps-emit_all,
  Keeps-bind, Keeps-if_found, Keeps-for_each,
)
