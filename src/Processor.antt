-- ===== src/Processor.antt =====
-- processor.go: the pipeline, its one interface, and the two built-in processors of that file. A
-- processor may change the record and any state of the program, the world `W`: the interface is a
-- state transformer, and a processor with a state of its own works on its part of the world.
pub mod Pipeline
pub mod Redact
pub mod Sample
pub mod Path
pub mod Dedup
pub mod Enrich
use logger.Base.{Option, none, some, List, [], ◌∷◌, Bytes}
use logger.Record.{Record, Context}

-- `ErrDrop`, or any other error.
pub data ProcError : Type 0 where
  drop : ProcError
  failure : Bytes → ProcError

-- What `Process` returns: its error, the record and the world after it.
abbrev pub Outcome : Type 0 → Type 0
Outcome W = Option ProcError × Record × W

abbrev pub Processor : Type 0 → Type 0
Processor W = Option Context → Record → W → Outcome W

-- `if err != nil { return err }`, and the rest of the loop.
abbrev pub and_then : {W : Type 0} → Outcome W → (Record → W → Outcome W) → Outcome W
and_then (none, r, w) rest = rest r w
and_then (some e, r, w) rest = (some e, r, w)

-- `runPipeline`
unfoldable pub run_pipeline :
    {W : Type 0} → List (Processor W) → Option Context → Record → W → Outcome W
run_pipeline [] ctx r w = (none, r, w)
run_pipeline (p ∷ ps) ctx r w = and_then (p ctx r w) (run_pipeline ps ctx)
