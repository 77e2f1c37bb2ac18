-- ===== src/Common/Output.antt =====
-- What is written to a stream, piece by piece. A number stays a number, and a JSON document stays
-- the text that `dump` gives.
use Prim.Native.String.{String}
use mathlib.Core.List.{List}
use crunchytask.Common.Int.{ℤ}

pub data Piece (Text : Type 0) : Type 0 where
  words : String → Piece Text
  number : ℤ → Piece Text
  document : Text → Piece Text

abbrev pub Written : Type 0 → Type 0
Written Text = List (Piece Text)
