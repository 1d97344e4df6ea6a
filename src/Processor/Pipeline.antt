-- ===== src/Processor/Pipeline.antt =====
-- How the pipeline composes: a failing stage is the last one that runs.
use logger.Base.{Option, none, some, List, [], ◌∷◌, ◌++◌, ◌≡◌, refl, ap, ◌∙◌, fun_ext}
use logger.Record.{Record, Context}
use logger.Processor.{Outcome, Processor, and_then, run_pipeline}

and_then_assoc :
    {W : Type 0} (o : Outcome W) (f g : Record → W → Outcome W)
    → and_then o (λ r w. and_then (f r w) g) ≡ and_then (and_then o f) g
and_then_assoc (none, r, w) f g = refl
and_then_assoc (some e, r, w) f g = refl

-- Running a pipeline of two parts is running the first part, and the second on the record and the
-- state that the first leaves, if no processor of the first returned an error; if one did, be it a
-- drop or a failure, its error, record and state are the result.
pub run_pipeline-append :
    {W : Type 0} (ps qs : List (Processor W)) (ctx : Option Context) (r : Record) (w : W)
    → run_pipeline (ps ++ qs) ctx r w ≡ and_then (run_pipeline ps ctx r w) (run_pipeline qs ctx)
unfolding run_pipeline
run_pipeline-append [] qs ctx r w = refl
run_pipeline-append (p ∷ ps) qs ctx r w =
    ap (and_then (p ctx r w)) (fun_ext λ r'. fun_ext λ w'. run_pipeline-append ps qs ctx r' w')
    ∙ and_then_assoc (p ctx r w) (run_pipeline ps ctx) (run_pipeline qs ctx)
