-- ===== src/SystemCalls/Texts.antt =====
-- nachos/kernel/exception.cc: GetLengthParam and GetStringParam on a text in the memory of the user
-- program.
use sgptp.Prelude.{ℕ, ◌≡◌, ◌≢◌, List, [], ◌∷◌}
use sgptp.Mips.Words.{add32}
use sgptp.SystemCalls.Exec.{returned}
use sgptp.SystemCalls.State.{State, Services}

module _ {W : Type 0} (sv : Services W) (s : State W) where
  -- From `addr` on ReadMem reads the characters of the text, none of them 0, and then 0, changing
  -- nothing.
  abbrev pub HoldsText : ℕ → List ℕ → Type 0
  HoldsText addr [] = sv.read_byte addr s ≡ returned 0 s
  HoldsText addr (c ∷ text) =
      (sv.read_byte addr s ≡ returned c s) × (c ≢ 0) × HoldsText (add32 addr 1) text
