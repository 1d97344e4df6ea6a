-- ===== src/Tests/Rings.antt =====
-- Runs of the ring transport.
use logger.Base.{false, ◌≡◌, refl, true, some, [], ◌∷◌, ◌++◌, bytes}
use logger.Record.{Record, blank, clone}
use logger.Transport.{block}
use logger.Transport.RingTransport.{
  new_ring, store, advance, close, dispatch, take_oldest, System, initial, idle, holding, stopped,
  stores, closes, Reach, here, next,
}
use logger.Transport.RingTransport.Queue.{contents}
use logger.Transport.RingTransport.Steps.{hand}
use logger.Transport.RingTransport.Waking.{
  Sleepers, woken, broadcast, Live, live, LiveReach, WorkerRun,
}
use logger.Transport.RingTransport.Waking
use logger.Transport.RingTransport.Waking.Drain.{close_drains}
use logger.Transport.RingTransport.Delivery.{emitted_in_order}

abbrev one : Record
one = record blank { message = bytes "one"; pooled = true }

abbrev start : System
start = initial 2 block

-- One record stored, taken and emitted; then the ring is closed and the worker ends.
abbrev filled : System
filled = record start {
  ring = store start.ring (clone one);
  accepted = some (clone one) ∷ [];
  calls = 1;
}

abbrev shut : System
shut = record filled { ring = close filled.ring }

abbrev held : System
held = record shut { ring = advance shut.ring; worker = holding (some (clone one)) }

abbrev gone : System
gone = record held { worker = idle; emitted = some (clone one) ∷ [] }

abbrev ended : System
ended = record gone { worker = stopped }

Reach-shut : Reach start shut
unfolding dispatch store clone new_ring close
Reach-shut =
    next (next here (stores {s = start} one (store start.ring (clone one)) refl))
      (closes {s = filled})

emitted_in_order_example : shut.emitted ++ (hand shut.worker ++ contents shut.ring) ≡ shut.accepted
emitted_in_order_example = emitted_in_order 2 block shut (λ e. cc) Reach-shut

shut_closed : shut.ring.closed ≡ true
unfolding close
shut_closed = refl

-- The worker sleeps at first and is woken by the record; then the ring is closed.
abbrev awake : Sleepers
awake = record { worker = false; producers = 0 }

abbrev drowsy : Sleepers
drowsy = record { worker = true; producers = 0 }

abbrev at : System → Sleepers → Live
at s z = record { sys = s; asleep = z }

Reach-awake : LiveReach (live 2 block) (at shut awake)
unfolding dispatch store clone new_ring close take_oldest woken broadcast
Reach-awake =
    Waking.next
      (Waking.next (Waking.next Waking.here (Waking.sleeps refl refl refl))
        (Waking.others (stores {s = start} one (store start.ring (clone one)) refl) refl))
      (Waking.others (closes {s = filled}) refl)

close_drains_example :
    (awake.worker ≡ false)
    × (awake.producers ≡ 0)
    × (m : Live) × WorkerRun (at shut awake) m
    × (m.sys.worker ≡ stopped)
    × (m.sys.emitted ≡ shut.accepted)
close_drains_example = close_drains 2 block (at shut awake) (λ e. cc) Reach-awake shut_closed
