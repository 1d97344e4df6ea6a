-- ===== src/Logger/StdLog.antt =====
-- shim_std.go: the standard library's log package on top of a logger.
use logger.Base.{
  ℕ, zero, suc, ◌≡◌, refl, ap, Option, none, some, [], ◌∷◌, ◌++◌, Bytes, length, replicate,
  if◌then◌else◌, ◌==◌,
}
use logger.Level.{Level}
use logger.Record.{background}
use logger.Sink.{Error}
use logger.Logger.{Runtime, Logger, State, log}

-- What is left of `c ∷ t` for a text `t` that is trimmed already.
unfoldable pub cons_line : ℕ → Bytes → Bytes
cons_line c [] = if c == 10 then [] else c ∷ []
cons_line c (d ∷ t) = c ∷ d ∷ t

-- `strings.TrimRight(s, "\n")`
unfoldable pub trim_newlines : Bytes → Bytes
unfolding cons_line
trim_newlines [] = []
trim_newlines (c ∷ cs) = cons_line c (trim_newlines cs)

-- `stdWriter.Write`: the number of bytes, and its error.
unfoldable pub std_write :
    {W : Type 0} → Runtime W → Logger W → Level → Bytes → State W → ℕ × Option Error × State W
unfolding log trim_newlines
std_write rt l level p st =
    (length p, none, log rt l (some background) level (trim_newlines p) [] st)

-- The settings of the log package's own logger, with its output in some type of writers.
pub record StdLog (O : Type 0) : Type 0 where
  pub output : O
  pub flags : ℕ
  pub prefix : Bytes

-- `RedirectStdLog`, and the function that it returns; `writer` is what `StdLogWriter` makes.
unfoldable pub redirect_std_log : {O : Type 0} → O → StdLog O → StdLog O × (StdLog O → StdLog O)
redirect_std_log writer std = (
  record std { output = writer; flags = 0; prefix = [] },
  λ later. record later { output = std.output; flags = std.flags; prefix = std.prefix },
)

trim_newlines-replicate : (n : ℕ) → trim_newlines (replicate n 10) ≡ []
unfolding trim_newlines cons_line
trim_newlines-replicate zero = refl
trim_newlines-replicate (suc n) = rw (trim_newlines-replicate n) refl

-- However many line feeds the log package has put behind a text, the record is that of the text.
pub trim_newlines-append :
    (s : Bytes) (n : ℕ) → trim_newlines (s ++ replicate n 10) ≡ trim_newlines s
unfolding trim_newlines
trim_newlines-append [] n = trim_newlines-replicate n
trim_newlines-append (c ∷ cs) n = ap (cons_line c) (trim_newlines-append cs n)
