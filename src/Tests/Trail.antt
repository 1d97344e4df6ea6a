-- ===== src/Tests/Trail.antt =====
-- The trail of a FingersCrossed sink, and streams of the audit sink.
use logger.Base.{
  ◌+◌, ◌%◌, length, ◌≡◌, refl, ◌⊎◌, true, none, some, List, [], ◌∷◌, ◌++◌, Bytes, bytes, arith,
  decimal, parse_uint, bytes_eq, replicate,
}
use logger.Level.{level_info, level_error}
use logger.Record.{Record, blank}
use logger.Sink.{Sink, Encode}
use logger.Sink.FingersCrossed.{new_fc_buffer, FingersCrossed, new_fingers_crossed, push}
use logger.Sink.FingersCrossed.Buffer.{
  IsValid, contents, push_bounded, new_fc_buffer-IsValid, push_refines,
}
use logger.Sink.FingersCrossed.Trail.{last, emit_all}
use logger.Audit.{
  line_body, drop_cr, split_spaces, trim_newlines, genesis_hash, new_audit_sink, verify_audit,
  whole, split_lines,
}
use logger.Audit.Chain.{canonicals, verify_audit-emit_all}
use logger.Audit.Chain
use logger.Audit.Verify
use logger.Audit.Verify.{last_hash, texts, Weakness, verify_audit-Chain, same_last_hash}

-- A sink that keeps what it gets.
abbrev keeping : Sink (List Record)
keeping = record {
  emit = λ r w. (none, w ++ (r ∷ []));
  sync = λ w. (none, w);
  close = λ w. (none, w);
}

abbrev crossed : FingersCrossed (List Record)
crossed = new_fingers_crossed keeping

abbrev note : Bytes → Record
note text = record blank { level = level_info; message = text }

abbrev notes : List Record
notes = note (bytes "a") ∷ note (bytes "b") ∷ note (bytes "c") ∷ []

abbrev failing : Record
failing = record blank { level = level_error; message = bytes "d" }

push_refines_example :
    IsValid (push (new_fc_buffer 2) failing)
    × (contents (push (new_fc_buffer 2) failing)
        ≡ push_bounded (new_fc_buffer 2).cap (contents (new_fc_buffer 2)) (some failing))
push_refines_example = push_refines (new_fc_buffer 2) failing (new_fc_buffer-IsValid 2)

-- A stand-in for the hash: a text of 64 bytes that is not the anchor.
abbrev sha : Bytes → Bytes
sha s = replicate 64 b'a'

abbrev encode : Encode
encode buf r = r.message ++ (b'\n' ∷ [])

verify_audit-emit_all_example :
    verify_audit sha (Chain.emit_all sha encode new_audit_sink (note (bytes "a") ∷ []) []).1 none
    ≡ whole 1
unfolding trim_newlines line_body decimal
verify_audit-emit_all_example =
    verify_audit-emit_all sha (λ x. (omega arith, omega arith)) encode (note (bytes "a") ∷ [])
      (omega arith) (((omega arith, tt), refl), tt) (omega arith, tt)

-- A stream of two lines.
abbrev audited : Bytes
audited = (Chain.emit_all sha encode new_audit_sink (note (bytes "a") ∷ note (bytes "b") ∷ []) []).1

audited_ok : (verify_audit sha audited none).ok ≡ true
unfolding Chain.emit_all verify_audit new_audit_sink decimal parse_uint bytes_eq
audited_ok = refl

verify_audit-Chain_example :
    (cs : List Bytes) × (last : Bytes) × Verify.Chain sha 0 genesis_hash
      (split_lines audited)
      cs
      last
verify_audit-Chain_example = verify_audit-Chain sha audited none audited_ok

-- A stand-in that looks at the length of its input, and a stream of two lines with either ending.
abbrev mix : Bytes → Bytes
mix s = replicate 63 b'a' ++ ((b'0' + length s % 10) ∷ [])

abbrev first_hash : Bytes
first_hash = mix (genesis_hash ++ bytes "a")

abbrev ended : Bytes → Bytes
ended end =
    (line_body first_hash genesis_hash 0 (bytes "a") ++ end)
    ++ (line_body (mix (first_hash ++ bytes "b")) first_hash 1 (bytes "b") ++ end)

unix_ok : (verify_audit mix (ended (b'\n' ∷ [])) none).ok ≡ true
unfolding line_body verify_audit decimal parse_uint bytes_eq
unix_ok = refl

dos_ok : (verify_audit mix (ended (b'\r' ∷ b'\n' ∷ [])) none).ok ≡ true
unfolding line_body verify_audit decimal parse_uint bytes_eq
dos_ok = refl

same_end :
    last_hash genesis_hash (split_lines (ended (b'\n' ∷ [])))
    ≡ last_hash genesis_hash (split_lines (ended (b'\r' ∷ b'\n' ∷ [])))
unfolding line_body last_hash split_lines split_spaces drop_cr decimal
same_end = refl

same_last_hash_example :
    (texts (split_lines (ended (b'\n' ∷ []))) ≡ texts (split_lines (ended (b'\r' ∷ b'\n' ∷ []))))
    ⊎ Weakness mix
same_last_hash_example =
    same_last_hash mix (ended (b'\n' ∷ [])) (ended (b'\r' ∷ b'\n' ∷ [])) none none (λ x. refl)
      unix_ok dos_ok same_end
