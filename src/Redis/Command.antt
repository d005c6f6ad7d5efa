-- ===== src/Redis/Command.antt =====
-- Redis commands as the `redis` crate builds them: a name and arguments. The server is not modelled.
use sse_gateway.Prelude.{ℕ, Text, List}

pub data Arg : Type 0 where
  text : Text → Arg
  number : ℕ → Arg

-- `pipe.cmd(name).arg(a1)…`
pub record Command : Type 0 where
  pub name : Text
  pub args : List Arg

-- `redis::Value`, as far as the code tells its cases apart
pub data Value : Type 0 where
  bulk_string : Text → Value
  simple_string : Text → Value
  other : Value
