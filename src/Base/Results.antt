-- ===== src/Base/Results.antt =====
-- A Go result with an error: the value or the text of the error.
use iicpc_distributed_benchm.Base.Strings.{Text}

pub data Result (A : Type 0) : Type 0 where
  done : (a : A) → Result A
  failed : (message : Text) → Result A
