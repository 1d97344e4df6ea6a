-- ===== src/Sink/FingersCrossed.antt =====
-- fingerscrossed.go: a sink that holds records back in a ring until one at the activation level
-- comes. A buffer's methods run under its lock, so each is one step; the buffers of the scopes that
-- `FCScope` opens are kept by their address.
pub mod Buffer
pub mod Trail
use logger.Base.{
  ℕ, zero, suc, ◌+◌, ◌-◌, ◌%◌, Bool, true, false, not, ◌&&◌, Option, none, some, List, [], ◌∷◌,
  if◌then◌else◌, ltb, ◌==◌, leb_ℤ, eq_ℤ, pos, replicate, get_or, set,
}
use logger.Level.{Level, level_error}
use logger.Record.{Record, Context, clone}
use logger.Sink.{Error, Sink}

-- A slot of the ring is a pointer to a record, nil at first.
pub record FcBuffer : Type 0 where
  pub ring : List (Option Record)
  pub start : ℕ
  pub count : ℕ
  pub activated : Bool
  pub cap : ℕ

unfoldable pub new_fc_buffer : ℕ → FcBuffer
new_fc_buffer capacity =
    let cap = if ltb capacity 1 then 256 else capacity in
    record { ring = replicate cap none; start = 0; count = 0; activated = false; cap = cap }

unfoldable pub push : FcBuffer → Record → FcBuffer
push b r =
    if b.count == b.cap
    then record b { ring = set b.ring b.start (some r); start = (b.start + 1) % b.cap }
    else record b { ring = set b.ring ((b.start + b.count) % b.cap) (some r); count = b.count + 1 }

-- The loop of `drain` from `i` on, with `k` rounds to go.
unfoldable pub drain_from : FcBuffer → ℕ → ℕ → List (Option Record)
drain_from b i zero = []
drain_from b i (suc k) = get_or b.ring ((b.start + i) % b.cap) none ∷ drain_from b (i + 1) k

unfoldable pub drain : FcBuffer → List (Option Record) × FcBuffer
unfolding drain_from
drain b = (drain_from b 0 b.count, record b { start = 0; count = 0 })

pub record FingersCrossed (W : Type 0) : Type 0 where
  pub inner : Sink W
  pub activation : Level
  pub buffer_size : ℕ
  pub pass_through : Level

unfoldable pub new_fingers_crossed : {W : Type 0} → Sink W → FingersCrossed W
new_fingers_crossed inner = record {
  inner = inner;
  activation = level_error;
  buffer_size = 256;
  pass_through = pos 0;
}

abbrev pub activation_level : Level → Level
activation_level act = if eq_ℤ act (pos 0) then level_error else act

module _ {W : Type 0} where
  -- Inner emissions of drained records, whose errors are dropped. No slot of a valid buffer that is
  -- drained is nil.
  unfoldable pub emit_held : Sink W → List (Option Record) → W → W
  emit_held s [] w = w
  emit_held s (none ∷ hs) w = emit_held s hs w
  emit_held s (some r ∷ hs) w = emit_held s hs (s.emit r w).1

  abbrev after : FcBuffer → Option Error × W → Option Error × FcBuffer × W
  after b (e, w) = (e, b, w)

  -- The drained trail, then the record, behind a buffer that stays open.
  unfoldable pub activate :
      FingersCrossed W → List (Option Record) × FcBuffer → Record → W → Option Error × FcBuffer × W
  unfolding emit_held
  activate f (held, b) r w =
      after (record b { activated = true }) (f.inner.emit r (emit_held f.inner held w))

  -- `Emit` on the buffer that it has found.
  unfoldable pub emit_in : FingersCrossed W → FcBuffer → Record → W → Option Error × FcBuffer × W
  unfolding drain activate push clone
  emit_in f b r w =
      if b.activated
      then after b (f.inner.emit r w)
      else if leb_ℤ (activation_level f.activation) r.level
      then activate f (drain b) r w
      else if not (eq_ℤ f.pass_through (pos 0)) && leb_ℤ f.pass_through r.level
      then after b (f.inner.emit r w)
      else (none, push b (clone r), w)

-- The process-wide buffer, those of the scopes by their address, and the world of the inner sink.
pub record FcState (W : Type 0) : Type 0 where
  pub global : FcBuffer
  pub scoped : ℕ → FcBuffer
  pub world : W

abbrev scope_in : Option Context → Option ℕ
scope_in none = none
scope_in (some ctx) = ctx.scope

module _ {W : Type 0} where
  -- `bufFor`, on the address that the record's context holds.
  abbrev pub buf_for : FcState W → Option ℕ → FcBuffer
  buf_for st none = st.global
  buf_for st (some a) = st.scoped a

  abbrev pub put_back : FcState W → Option ℕ → FcBuffer → W → FcState W
  put_back st none b w = record st { global = b; world = w }
  put_back st (some a) b w = record st {
    scoped = λ k. if k == a then b else st.scoped k;
    world = w;
  }

  -- `Emit`
  unfoldable pub emit : FingersCrossed W → Record → FcState W → Option Error × FcState W
  unfolding emit_in
  emit f r st =
      let (e, b, w) = emit_in f (buf_for st (scope_in r.ctx)) r st.world in
      (e, put_back st (scope_in r.ctx) b w)

  unfoldable pub sync : FingersCrossed W → FcState W → Option Error × FcState W
  sync f st = let (e, w) = f.inner.sync st.world in (e, record st { world = w })

  unfoldable pub close : FingersCrossed W → FcState W → Option Error × FcState W
  close f st = let (e, w) = f.inner.close st.world in (e, record st { world = w })

-- `FCScope`, with the address that its new buffer gets.
unfoldable pub fc_scope : {W : Type 0} → ℕ → Context → FcState W → Context × FcState W
unfolding new_fc_buffer
fc_scope a ctx st = (
  record ctx { scope = some a },
  record st { scoped = λ k. if k == a then new_fc_buffer 256 else st.scoped k },
)
