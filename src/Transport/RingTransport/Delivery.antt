-- ===== src/Transport/RingTransport/Delivery.antt =====
-- What the ring transport promises its callers: order, accounting, and that Close drains.
use logger.Base.{ℕ, ◌≡◌, sym, ap, ◌∙◌, ◌≢◌, [], ◌++◌, append-nil, length}
use logger.Ring.{window}
use logger.Transport.{Policy, drop_oldest}
use logger.Transport.RingTransport.{System, initial, stopped, Reach}
use logger.Transport.RingTransport.Queue.{contents, no_slot}
use logger.Transport.RingTransport.Steps.{hand, Inv, Reach-Inv}

-- Under Block and DropNewest the records are emitted in the order in which they were stored: what
-- was emitted, then what the worker holds, then the ring, is exactly the list of stored records.
pub emitted_in_order :
    (n : ℕ) (p : Policy) (s : System)
    → p ≢ drop_oldest
    → Reach (initial n p) s
    → s.emitted ++ (hand s.worker ++ contents s.ring) ≡ s.accepted
emitted_in_order n p s h r = (Reach-Inv n p r).ordered h

nothing_left :
    {p : Policy} (s : System) → Inv p s → s.worker ≡ stopped → hand s.worker ++ contents s.ring ≡ []
nothing_left s v gone =
    ap (λ w. hand w ++ contents s.ring) gone
    ∙ ap (window no_slot (length s.ring.buf) s.ring.buf s.ring.head) (v.ended gone).0

pub stopped_in_order :
    {p : Policy} (s : System)
    → Inv p s
    → p ≢ drop_oldest
    → s.worker ≡ stopped
    → s.emitted ≡ s.accepted
stopped_in_order s v h gone =
    sym (append-nil s.emitted)
    ∙ ap (λ q. s.emitted ++ q) (sym (nothing_left s v gone))
    ∙ v.ordered h
