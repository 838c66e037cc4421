-- ===== src/Tests/EventTests.antt =====
-- The theorems on the event emitter, at concrete handlers and events.
use keen_trader.Base.{ℕ, ◌≡◌, refl, false, [], ◌∷◌, ◌++◌}
use keen_trader.Base.Text.{codes}
use keen_trader.Events.Handlers.{Event, Handler, Emitter}
use keen_trader.Events.Queue.{
  Pipeline, started, put, stop, sleep, take_front, run_task, puts, sleeps, takes, runs, Reach, here,
  next, trail, Reach-fifo, Reach-stopped,
}
use keen_trader.Events.Drain.{drain}

abbrev handler : ℕ → ℕ → Handler
handler target callee = record { target = target; callee = callee }

abbrev emitter : Emitter
emitter = record {
  handlers = (codes "eTick.", handler 1 1) ∷ [];
  general_handlers = handler 9 9 ∷ [];
}

abbrev tick_event : Event ℕ
tick_event = record { type = codes "eTick."; payload = 7 }

abbrev one_put : Pipeline ℕ
one_put = put tick_event started

put_taken : Reach started (tick_event ∷ []) (take_front tick_event [] one_put)
unfolding put
put_taken =
    next (next (here refl) (puts tick_event refl) refl) (takes tick_event [] refl refl refl refl)
      refl

Reach-fifo_example : trail (take_front tick_event [] one_put) ≡ tick_event ∷ []
Reach-fifo_example = Reach-fifo (tick_event ∷ []) put_taken

-- The worker waits when the event is put.
abbrev put_while_waiting : Pipeline ℕ
put_while_waiting = put tick_event (sleep started)

while_waiting : Reach started (tick_event ∷ []) put_while_waiting
while_waiting =
    next (next (here refl) (sleeps refl refl refl refl) refl) (puts tick_event refl) refl

drain_example :
    (q : Pipeline ℕ) × Reach put_while_waiting [] q
    × (q.queue ≡ [])
    × (q.posted ≡ [])
    × (q.processed ≡ tick_event ∷ [])
unfolding put sleep
drain_example = drain put_while_waiting (tick_event ∷ []) while_waiting refl refl

-- One event is posted, the emitter is stopped, and then one more is put.
abbrev stopped_one : Pipeline ℕ
stopped_one = stop (put tick_event (take_front tick_event [] one_put))

abbrev put_after_stop : Pipeline ℕ
put_after_stop = run_task tick_event [] (put tick_event stopped_one)

after_stop : Reach stopped_one (tick_event ∷ []) put_after_stop
unfolding put stop take_front
after_stop =
    next (next (here refl) (puts tick_event refl) refl) (runs tick_event [] refl refl refl) refl

Reach-stopped_example :
    (put_after_stop.active ≡ false)
    × (put_after_stop.processed ++ put_after_stop.posted
        ≡ stopped_one.processed ++ stopped_one.posted)
unfolding stop
Reach-stopped_example = Reach-stopped after_stop refl
