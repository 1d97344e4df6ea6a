-- ===== src/Logger/Slog/Contract.antt =====
-- The handler's part of slog's contract: bound attributes and groups against attributes of a call.
use logger.Base.{◌≡◌, refl, sym, ap, ◌∙◌, Option, List, [], ◌∷◌, Bytes}
use logger.Field.{Field}
use logger.Record.{Context}
use logger.Logger.{State, log_at}
use logger.Logger.Slog.{
  Attrs, no_attrs, attr, group, SlogHandler, SlogRecord, append_attr, append_attrs, handle,
  with_attrs, with_group, slog_to_level,
}

-- Attributes in front of others.
abbrev pub joined : Attrs → Attrs → Attrs
joined no_attrs bs = bs
joined (attr key v xs) bs = attr key v (joined xs bs)

append_attrs-joined :
    (dst : List Field) (prefix : Bytes) (xs bs : Attrs)
    → append_attrs dst prefix (joined xs bs) ≡ append_attrs (append_attrs dst prefix xs) prefix bs
unfolding append_attrs
append_attrs-joined dst prefix no_attrs bs = refl
append_attrs-joined dst prefix (attr key v xs) bs =
    append_attrs-joined (append_attr dst prefix key v) prefix xs bs

append_attrs-with_group :
    {W : Type 0} (h : SlogHandler W) (name : Bytes) (dst : List Field) (bs : Attrs)
    → append_attrs dst (with_group h name).prefix bs
      ≡ append_attrs dst h.prefix (attr name (group bs) no_attrs)
unfolding append_attrs append_attr with_group
append_attrs-with_group h [] dst bs = refl
append_attrs-with_group h (c ∷ cs) dst bs = refl

with_group_keeps :
    {W : Type 0} (h : SlogHandler W) (name : Bytes)
    → ((with_group h name).logger ≡ h.logger) × ((with_group h name).preform ≡ h.preform)
unfolding with_group
with_group_keeps h [] = (refl, refl)
with_group_keeps h (c ∷ cs) = (refl, refl)

-- Handling a record by a handler that was given some attributes and then opened a group does what
-- the handler before does with a record of the same time, level and message, whose attributes are
-- those, and behind them one group of that name with the record's own; a group with no name is
-- none.
pub handle-with_group :
    {W : Type 0} (h : SlogHandler W) (xs : Attrs) (name : Bytes) (ctx : Option Context)
    (r : SlogRecord) (st : State W)
    → handle (with_group (with_attrs h xs) name) ctx r st
      ≡ handle h ctx (record r { attrs = joined xs (attr name (group r.attrs) no_attrs) }) st
unfolding handle with_attrs
handle-with_group h xs name ctx r st =
    let g = with_attrs h xs in
    let keeps = with_group_keeps g name in
    let level = slog_to_level r.level in
    ap
      (λ l.
        log_at l ctx r.time level r.message
          (append_attrs (with_group g name).preform (with_group g name).prefix r.attrs) st)
      keeps.0
    ∙ ap
        (λ p.
          log_at h.logger ctx r.time level r.message
            (append_attrs p (with_group g name).prefix r.attrs) st)
        keeps.1
    ∙ ap (λ fs. log_at h.logger ctx r.time level r.message fs st)
        (append_attrs-with_group g name g.preform r.attrs
          ∙ sym (append_attrs-joined h.preform h.prefix xs (attr name (group r.attrs) no_attrs)))
