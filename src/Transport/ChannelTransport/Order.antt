-- ===== src/Transport/ChannelTransport/Order.antt =====
-- The records leave the channel in the order in which they were sent.
use logger.Base.{
  ℕ, ◌+◌, ◌%◌, ◌^◌, ◌≤◌, ◌<◌, ◌≡◌, refl, sym, subst, ap, ◌∙◌, ◌⊎◌, inl, inr, true, false, none,
  some, List, [], ◌∷◌, ◌++◌, append_assoc, append-nil, length, length-append, arith, ℤ,
}
use logger.Record.{Record, clone}
use logger.Transport.{Policy}
use logger.Transport.ChannelTransport.{
  Channel, new_channel, send, received, receive_of, receive, returns, refuses, overflow, outcome,
  dispatch, evict, close, Worker, idle, holding, stopped, Way, to_worker, evicted, System, initial,
  Step, sends, drops, makes_room, counts_nil, takes, emits, stops, closes, Reach, here, next,
}

abbrev pub records_of : List (Record × Way) → List Record
records_of [] = []
records_of (x ∷ xs) = x.0 ∷ records_of xs

-- Those that went to the worker, and the number of the others.
abbrev pub went : Way → Record → List Record → List Record
went to_worker r rs = r ∷ rs
went evicted r rs = rs

abbrev pub worked : List (Record × Way) → List Record
worked [] = []
worked (x ∷ xs) = went x.1 x.0 (worked xs)

abbrev pub one_evicted : Way → ℕ
one_evicted to_worker = 0
one_evicted evicted = 1

abbrev pub evictions : List (Record × Way) → ℕ
evictions [] = 0
evictions (x ∷ xs) = one_evicted x.1 + evictions xs

abbrev pub in_hand : Worker → List Record
in_hand idle = []
in_hand (holding r) = r ∷ []
in_hand stopped = []

records_of-append :
    (xs ys : List (Record × Way)) → records_of (xs ++ ys) ≡ records_of xs ++ records_of ys
records_of-append [] ys = refl
records_of-append (x ∷ xs) ys = ap (λ t. x.0 ∷ t) (records_of-append xs ys)

went-append : (w : Way) (r : Record) (xs ys : List Record) → went w r (xs ++ ys) ≡ went w r xs ++ ys
went-append to_worker r xs ys = refl
went-append evicted r xs ys = refl

worked-append : (xs ys : List (Record × Way)) → worked (xs ++ ys) ≡ worked xs ++ worked ys
worked-append [] ys = refl
worked-append (x ∷ xs) ys =
    ap (went x.1 x.0) (worked-append xs ys) ∙ went-append x.1 x.0 (worked xs) (worked ys)

evictions-append :
    (xs ys : List (Record × Way)) → evictions (xs ++ ys) ≡ evictions xs + evictions ys
evictions-append [] ys = omega arith
evictions-append (x ∷ xs) ys = omega (arith, evictions-append xs ys)

record Inv (s : System) : Type 0 where
  order : s.accepted ≡ records_of s.left ++ s.channel.ch
  shown : s.emitted ++ in_hand s.worker ≡ worked s.left
  counted : s.channel.dropped ≡ (evictions s.left + s.refused + s.nils) % 2 ^ 64
  room : length s.channel.ch ≤ s.channel.capacity
  late : (s.nils ≡ 0) ⊎ (s.channel.closed ≡ true)

-- What `dispatch` can return.
dispatch_returns :
    (t u : Channel) (r : Record)
    → dispatch t r ≡ returns u
    → (u ≡ record t { ch = t.ch ++ (clone r ∷ []) })
      × (length t.ch < t.capacity)
      × (t.closed ≡ false)
unfolding dispatch send outcome
dispatch_returns t u r e = ground arith

dispatch_refuses :
    (t u : Channel) (r : Record)
    → dispatch t r ≡ refuses u
    → (u ≡ record t { dropped = (t.dropped + 1) % 2 ^ 64 })
unfolding dispatch send outcome overflow
dispatch_refuses t u r e = ground arith

receive_received :
    (t u : Channel) (r : Record)
    → receive t ≡ received r u
    → (t.ch ≡ r ∷ u.ch) × (u ≡ record t { ch = u.ch })
unfolding receive receive_of
receive_received t u r e = ground arith

evict-some :
    (t u : Channel) (r : Record)
    → evict t (receive t) ≡ some (some r, u)
    → (t.ch ≡ r ∷ u.ch) × (u ≡ record t { ch = u.ch; dropped = (t.dropped + 1) % 2 ^ 64 })
unfolding evict receive receive_of
evict-some t u r e = ground arith

evict-none :
    (t u : Channel)
    → evict t (receive t) ≡ some (none, u)
    → (u ≡ record t { dropped = (t.dropped + 1) % 2 ^ 64 }) × (t.closed ≡ true)
unfolding evict receive receive_of
evict-none t u e = ground arith

-- A record that leaves the buffer is the next one of those accepted.
leaves :
    (s : System) (w : Way) (r : Record) (rest : List Record)
    → s.accepted ≡ records_of s.left ++ s.channel.ch
    → s.channel.ch ≡ r ∷ rest
    → s.accepted ≡ records_of (s.left ++ ((r, w) ∷ [])) ++ rest
leaves s w r rest order e =
    order
    ∙ ap (λ t. records_of s.left ++ t) e
    ∙ sym (append_assoc (records_of s.left) (r ∷ []) rest)
    ∙ ap (λ t. t ++ rest) (sym (records_of-append s.left ((r, w) ∷ [])))

sends-Inv :
    (s : System) (r : Record) (t : Channel)
    → Inv s
    → dispatch s.channel r ≡ returns t
    → Inv (record s { channel = t; accepted = s.accepted ++ (clone r ∷ []) })
sends-Inv s r t i e =
    let (is, fits, open_) = dispatch_returns s.channel t r e in
    subst (λ u. Inv (record s { channel = u; accepted = s.accepted ++ (clone r ∷ []) })) (sym is)
      (record {
        order =
            ap (λ xs. xs ++ (clone r ∷ [])) i.order
            ∙ append_assoc (records_of s.left) s.channel.ch _;
        shown = i.shown;
        counted = i.counted;
        room = omega (arith, length-append s.channel.ch (clone r ∷ []));
        late = i.late;
      })

drops-Inv :
    (s : System) (r : Record) (t : Channel)
    → Inv s
    → dispatch s.channel r ≡ refuses t
    → Inv (record s { channel = t; refused = s.refused + 1 })
drops-Inv s r t i e =
    subst (λ u. Inv (record s { channel = u; refused = s.refused + 1 }))
      (sym (dispatch_refuses s.channel t r e))
      (record {
        order = i.order;
        shown = i.shown;
        counted = omega (arith, i.counted);
        room = i.room;
        late = i.late;
      })

makes_room-Inv :
    (s : System) (r : Record) (t : Channel)
    → Inv s
    → evict s.channel (receive s.channel) ≡ some (some r, t)
    → Inv (record s { channel = t; left = s.left ++ ((r, evicted) ∷ []) })
makes_room-Inv s r t i e =
    let (front, is) = evict-some s.channel t r e in
    subst (λ u. Inv (record s { channel = u; left = s.left ++ ((r, evicted) ∷ []) })) (sym is)
      (record {
        order = leaves s evicted r t.ch i.order front;
        shown =
            i.shown ∙ sym (worked-append s.left ((r, evicted) ∷ []) ∙ append-nil (worked s.left));
        counted = omega (arith, i.counted, evictions-append s.left ((r, evicted) ∷ []));
        room = omega (arith, i.room, ap length front);
        late = i.late;
      })

counts_nil-Inv :
    (s : System) (t : Channel)
    → Inv s
    → evict s.channel (receive s.channel) ≡ some (none, t)
    → Inv (record s { channel = t; nils = s.nils + 1 })
counts_nil-Inv s t i e =
    let (is, shut) = evict-none s.channel t e in
    subst (λ u. Inv (record s { channel = u; nils = s.nils + 1 })) (sym is)
      (record {
        order = i.order;
        shown = i.shown;
        counted = omega (arith, i.counted);
        room = i.room;
        late = inr shut;
      })

takes-Inv :
    (s : System) (r : Record) (t : Channel)
    → Inv s
    → s.worker ≡ idle
    → receive s.channel ≡ received r t
    → Inv (record s { channel = t; worker = holding r; left = s.left ++ ((r, to_worker) ∷ []) })
takes-Inv s r t i free e =
    let (front, is) = receive_received s.channel t r e in
    let before : s.emitted ≡ worked s.left =
      sym (ap (λ w. s.emitted ++ in_hand w) free ∙ append-nil s.emitted) ∙ i.shown in
    subst
      (λ u.
        Inv (record s { channel = u; worker = holding r; left = s.left ++ ((r, to_worker) ∷ []) }))
      (sym is)
      (record {
        order = leaves s to_worker r t.ch i.order front;
        shown = ap (λ xs. xs ++ (r ∷ [])) before ∙ sym (worked-append s.left ((r, to_worker) ∷ []));
        counted = omega (arith, i.counted, evictions-append s.left ((r, to_worker) ∷ []));
        room = omega (arith, i.room, ap length front);
        late = i.late;
      })

Step-Inv : {s u : System} → Step s u → Inv s → Inv u
unfolding close
Step-Inv {s} (sends r t e) i = sends-Inv s r t i e
Step-Inv {s} (drops r t e) i = drops-Inv s r t i e
Step-Inv {s} (makes_room r t p e) i = makes_room-Inv s r t i e
Step-Inv {s} (counts_nil t p e) i = counts_nil-Inv s t i e
Step-Inv {s} (takes r t free e) i = takes-Inv s r t i free e
Step-Inv {s} (emits r e) i = record {
  order = i.order;
  shown = append-nil (s.emitted ++ (r ∷ [])) ∙ ap (λ w. s.emitted ++ in_hand w) (sym e) ∙ i.shown;
  counted = i.counted;
  room = i.room;
  late = i.late;
}
Step-Inv {s} (stops e end) i = record {
  order = i.order;
  shown = ap (λ w. s.emitted ++ in_hand w) (sym e) ∙ i.shown;
  counted = i.counted;
  room = i.room;
  late = i.late;
}
Step-Inv {s} closes i = record {
  order = i.order;
  shown = i.shown;
  counted = i.counted;
  room = i.room;
  late = inr refl;
}

Reach-Inv : {s u : System} → Inv s → Reach s u → Inv u
Reach-Inv i here = i
Reach-Inv i (next r st) = Step-Inv st (Reach-Inv i r)

-- From a new channel transport with any capacity and policy, however the producers, the worker and
-- Close interleave: the records sent are those that have left the channel, in that order, and then
-- those in it; of those that have left, the worker has emitted or holds exactly the ones that were
-- not evicted, in that order; `Dropped` reports the evicted and the refused ones modulo 2^64, and no
-- others before Close; and the channel holds at most its capacity.
pub channel_in_order :
    (capacity : ℤ) (policy : Policy) (s : System)
    → Reach (initial capacity policy) s
    → (s.accepted ≡ records_of s.left ++ s.channel.ch)
      × (s.emitted ++ in_hand s.worker ≡ worked s.left)
      × (s.channel.dropped ≡ (evictions s.left + s.refused + s.nils) % 2 ^ 64)
      × ((s.nils ≡ 0) ⊎ (s.channel.closed ≡ true))
      × (length s.channel.ch ≤ s.channel.capacity)
unfolding new_channel
channel_in_order capacity policy s r =
    let start : Inv (initial capacity policy) = record {
      order = refl;
      shown = refl;
      counted = refl;
      room = omega arith;
      late = inl refl;
    } in
    let i = Reach-Inv start r in (i.order, i.shown, i.counted, i.late, i.room)
