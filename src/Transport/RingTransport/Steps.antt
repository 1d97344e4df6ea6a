-- ===== src/Transport/RingTransport/Steps.antt =====
-- Every run of the ring transport, however its producers, its worker and Close interleave.
use logger.Base.{
  ℕ, ◌+◌, ◌%◌, ◌^◌, ◌<◌, ◌≡◌, refl, sym, ap, ◌∙◌, ◌≢◌, true, false, Option, some, List, [], ◌∷◌,
  ◌++◌, append_assoc, get_or, length, length-append, length-set, arith,
}
use logger.Record.{Record, clone}
use logger.Transport.{Policy, block, drop_newest, drop_oldest}
use logger.Transport.RingTransport.{
  Ring, new_ring, store, advance, evict, stored, replaced, refused, overflow, dispatch, took,
  finished, take_oldest, close, Worker, idle, holding, stopped, System, initial, Step, stores,
  replaces, refuses, ignores, takes, emits, stops, closes, Reach, here, next,
}
use logger.Transport.RingTransport.Queue.{
  IsValid, contents, no_slot, new_ring-IsValid, store_lem, advance_lem,
}

dispatch_stored :
    (t t' : Ring) (r : Record)
    → IsValid t
    → dispatch t r ≡ stored t'
    → (t' ≡ store t (clone r)) × (t.count < length t.buf) × (t.closed ≡ false)
unfolding dispatch overflow
dispatch_stored t t' r v e = ground arith

dispatch_replaced :
    (t t' : Ring) (r : Record)
    → IsValid t
    → dispatch t r ≡ replaced t'
    → (t' ≡ store (evict t) (clone r))
      × (t.count ≡ length t.buf)
      × (t.policy ≡ drop_oldest)
      × (t.closed ≡ false)
unfolding dispatch overflow
dispatch_replaced t t' r v e = ground arith

dispatch_refused :
    (t t' : Ring) (r : Record)
    → dispatch t r ≡ refused t'
    → (t' ≡ record t { dropped = (t.dropped + 1) % 2 ^ 64 })
      × (t.policy ≡ drop_newest)
      × (t.closed ≡ false)
unfolding dispatch overflow
dispatch_refused t t' r e = ground arith

take_oldest_took :
    (t t' : Ring) (x : Option Record)
    → take_oldest t ≡ took x t'
    → (t' ≡ advance t) × (x ≡ get_or t.buf t.head no_slot) × (0 < t.count)
unfolding take_oldest
take_oldest_took t t' x e = ground arith

take_oldest_finished : (t : Ring) → take_oldest t ≡ finished → (t.count ≡ 0) × (t.closed ≡ true)
unfolding take_oldest
take_oldest_finished t e = ground arith

-- The record that the worker has taken and not emitted yet.
abbrev pub hand : Worker → List (Option Record)
hand idle = []
hand (holding x) = x ∷ []
hand stopped = []

-- What holds of a transport with the policy `p` between two steps.
pub record Inv (p : Policy) (s : System) : Type 0 where
  pub valid : IsValid s.ring
  pub policy : s.ring.policy ≡ p
  pub counted : s.calls ≡ length s.emitted + length (hand s.worker) + s.ring.count + s.lost
  pub dropped : s.ring.dropped ≡ s.lost % 2 ^ 64
  pub ordered : p ≢ drop_oldest → s.emitted ++ (hand s.worker ++ contents s.ring) ≡ s.accepted
  pub lossless : p ≡ block → s.lost ≡ 0
  pub ended : s.worker ≡ stopped → (s.ring.count ≡ 0) × (s.ring.closed ≡ true)

module _ (p : Policy) (s : System) (v : Inv p s) where
  stores-Inv :
      (r : Record)
      → s.ring.count < length s.ring.buf
      → s.ring.closed ≡ false
      → Inv p (record s {
        ring = store s.ring r;
        accepted = s.accepted ++ (some r ∷ []);
        calls = s.calls + 1;
      })
  unfolding store
  stores-Inv r room open_ =
      let (valid', contents') = store_lem s.ring r v.valid room in
      record {
        valid = valid';
        policy = v.policy;
        counted = omega (arith, v.counted);
        dropped = v.dropped;
        ordered = λ h.
            ap (λ q. s.emitted ++ (hand s.worker ++ q)) contents'
            ∙ simp append_assoc refl
            ∙ ap (λ q. q ++ (some r ∷ [])) (v.ordered h);
        lossless = v.lossless;
        ended = λ h. cc ((v.ended h).1);
      }

  replaces-Inv :
      (r : Record)
      → s.ring.count ≡ length s.ring.buf
      → s.ring.policy ≡ drop_oldest
      → s.ring.closed ≡ false
      → Inv p (record s {
        ring = store (evict s.ring) r;
        accepted = s.accepted ++ (some r ∷ []);
        calls = s.calls + 1;
        lost = s.lost + 1;
      })
  unfolding store evict advance
  replaces-Inv r full oldest open_ =
      let some_held : 0 < s.ring.count = omega (arith, v.valid) in
      let (valid', contents') = advance_lem s.ring v.valid some_held in
      let sized = length-set s.ring.buf s.ring.head no_slot in
      let evicted : IsValid (evict s.ring) = omega (arith, valid') in
      record {
        valid = (store_lem (evict s.ring) r evicted (omega (arith, sized))).0;
        policy = v.policy;
        counted = omega (arith, v.counted);
        dropped = omega (arith, v.dropped);
        ordered = λ h. absurd (h (sym v.policy ∙ oldest));
        lossless = λ h. cc (v.policy);
        ended = λ h. cc ((v.ended h).1);
      }

  refuses-Inv :
      s.ring.policy ≡ drop_newest
      → s.ring.closed ≡ false
      → Inv p (record s {
        ring = record s.ring { dropped = (s.ring.dropped + 1) % 2 ^ 64 };
        calls = s.calls + 1;
        lost = s.lost + 1;
      })
  refuses-Inv newest open_ = record {
    valid = omega (arith, v.valid);
    policy = v.policy;
    counted = omega (arith, v.counted);
    dropped = omega (arith, v.dropped);
    ordered = v.ordered;
    lossless = λ h. cc (v.policy);
    ended = λ h. cc ((v.ended h).1);
  }

  takes-Inv :
      s.worker ≡ idle
      → 0 < s.ring.count
      → Inv p (record s {
        ring = advance s.ring;
        worker = holding (get_or s.ring.buf s.ring.head no_slot);
      })
  unfolding advance
  takes-Inv at_lock some_held =
      let (valid', contents') = advance_lem s.ring v.valid some_held in
      record {
        valid = valid';
        policy = v.policy;
        counted = omega (arith, v.counted, ap (λ w. length (hand w)) at_lock);
        dropped = v.dropped;
        ordered = λ h.
            ap (λ q. s.emitted ++ q)
              (sym contents' ∙ ap (λ w. hand w ++ contents s.ring) (sym at_lock))
            ∙ v.ordered h;
        lossless = v.lossless;
        ended = λ h. cc;
      }

  emits-Inv :
      (x : Option Record)
      → s.worker ≡ holding x
      → Inv p (record s { worker = idle; emitted = s.emitted ++ (x ∷ []) })
  emits-Inv x holds = record {
    valid = v.valid;
    policy = v.policy;
    counted =
        omega (arith, v.counted, ap (λ w. length (hand w)) holds, length-append s.emitted (x ∷ []));
    dropped = v.dropped;
    ordered = λ h.
        append_assoc s.emitted (x ∷ []) (contents s.ring)
        ∙ ap (λ w. s.emitted ++ (hand w ++ contents s.ring)) (sym holds)
        ∙ v.ordered h;
    lossless = v.lossless;
    ended = λ h. cc;
  }

  stops-Inv :
      s.worker ≡ idle
      → s.ring.count ≡ 0
      → s.ring.closed ≡ true
      → Inv p (record s { worker = stopped })
  stops-Inv at_lock empty closed = record {
    valid = v.valid;
    policy = v.policy;
    counted = omega (arith, v.counted, ap (λ w. length (hand w)) at_lock);
    dropped = v.dropped;
    ordered = λ h. ap (λ w. s.emitted ++ (hand w ++ contents s.ring)) (sym at_lock) ∙ v.ordered h;
    lossless = v.lossless;
    ended = λ h. (empty, closed);
  }

  closes-Inv : Inv p (record s { ring = close s.ring })
  unfolding close
  closes-Inv = record {
    valid = omega (arith, v.valid);
    policy = v.policy;
    counted = v.counted;
    dropped = v.dropped;
    ordered = v.ordered;
    lossless = v.lossless;
    ended = λ h. ((v.ended h).0, refl);
  }

-- Every step keeps the invariant.
pub Step-Inv : {p : Policy} {s t : System} → Step s t → Inv p s → Inv p t
Step-Inv {p} {s} (stores r t e) v =
    let (is, room, open_) = dispatch_stored s.ring t r v.valid e in
    rw is (stores-Inv p s v (clone r) room open_)
Step-Inv {p} {s} (replaces r t e) v =
    let (is, full, oldest, open_) = dispatch_replaced s.ring t r v.valid e in
    rw is (replaces-Inv p s v (clone r) full oldest open_)
Step-Inv {p} {s} (refuses r t e) v =
    let (is, newest, open_) = dispatch_refused s.ring t r e in
    rw is (refuses-Inv p s v newest open_)
Step-Inv (ignores r e) v = v
Step-Inv {p} {s} (takes x t at_lock e) v =
    let (is, oldest, some_held) = take_oldest_took s.ring t x e in
    rw (is, oldest) (takes-Inv p s v at_lock some_held)
Step-Inv {p} {s} (emits x holds) v = emits-Inv p s v x holds
Step-Inv {p} {s} (stops at_lock e) v =
    let (empty, closed) = take_oldest_finished s.ring e in stops-Inv p s v at_lock empty closed
Step-Inv {p} {s} closes v = closes-Inv p s v

initial-Inv : (n : ℕ) (p : Policy) → Inv p (initial n p)
unfolding new_ring
initial-Inv n p = record {
  valid = unfold new_ring in new_ring-IsValid n p;
  policy = refl;
  counted = omega arith;
  dropped = refl;
  ordered = λ h. refl;
  lossless = λ h. refl;
  ended = λ h. cc;
}

-- The invariant holds in every state that a new transport reaches.
pub Reach-Inv : (n : ℕ) (p : Policy) {s : System} → Reach (initial n p) s → Inv p s
Reach-Inv n p here = initial-Inv n p
Reach-Inv n p (next r st) = Step-Inv st (Reach-Inv n p r)
