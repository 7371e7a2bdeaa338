-- ===== src/Go/Expr/Laws.antt =====
-- `go_emit_range` writes the text that an expression of the grammar stands for.
use plx.Go.Expr.Runs.{Runs}
use plx.Go.Expr.{Expr}
