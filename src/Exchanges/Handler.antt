-- ===== src/Exchanges/Handler.antt =====
-- The handlers of an exchange's client, in core/exchange: a handler takes the client to an optional
-- result, the client after it and what it put and sent. A handler that throws has no result, and keeps
-- what it has done: its caller catches and logs.
use keen_trader.Base.{Option, none, some, List, [], ◌∷◌, ◌++◌}

abbrev pub Reply : Type 0 → Type 0 → Type 0 → Type 0
Reply S O A = Option A × S × List O

abbrev pub Handler : Type 0 → Type 0 → Type 0 → Type 0
Handler S O A = S → Reply S O A

abbrev pub after : {S O B : Type 0} → List O → Reply S O B → Reply S O B
after os r = (r.0, r.1, os ++ r.2)

abbrev pub continue : {S O A B : Type 0} → (A → Handler S O B) → Reply S O A → Reply S O B
continue f (none, x, os) = (none, x, os)
continue f (some a, x, os) = after os (f a x)

infixl 5 ◌>>=◌ ◌>>◌
unfoldable pub ◌>>=◌ : {S O A B : Type 0} → Handler S O A → (A → Handler S O B) → Handler S O B
◌>>=◌ m f x = continue f (m x)

abbrev pub ◌>>◌ : {S O B : Type 0} → Handler S O (Unit {0}) → Handler S O B → Handler S O B
m >> k = m >>= λ _. k

unfoldable pub pure : {S O A : Type 0} → A → Handler S O A
pure a x = (some a, x, [])

unfoldable pub gets : {S O A : Type 0} → (S → A) → Handler S O A
gets f x = (some (f x), x, [])

unfoldable pub modify : {S O : Type 0} → (S → S) → Handler S O (Unit {0})
modify f x = (some tt, f x, [])

unfoldable pub emit : {S O : Type 0} → O → Handler S O (Unit {0})
emit o x = (some tt, x, o ∷ [])

unfoldable pub emit_all : {S O : Type 0} → List O → Handler S O (Unit {0})
emit_all os x = (some tt, x, os)

-- A value, or the exception.
unfoldable pub or_throw : {S O A : Type 0} → Option A → Handler S O A
or_throw o x = (o, x, [])

unfoldable pub if_found :
    {S O A B : Type 0} → Option A → Handler S O B → (A → Handler S O B) → Handler S O B
if_found none missing found = missing
if_found (some a) missing found = found a

unfoldable pub skip : {S O : Type 0} → Handler S O (Unit {0})
skip x = (some tt, x, [])

unfoldable pub for_each :
    {S O A : Type 0} → List A → (A → Handler S O (Unit {0})) → Handler S O (Unit {0})
for_each [] body = skip
for_each (a ∷ as') body = body a >> for_each as' body
