-- ===== src/Prelude/Text.antt =====
-- Bytes, as Go's slices of them.
use Prim.Native.Nat.{ℕ}
use mathlib.Core.List.{List}

abbrev pub Bytes : Type 0
Bytes = List ℕ
