-- ===== src/SystemCalls/Arguments.antt =====
-- nachos/kernel/exception.cc: texts and arrays of the user program.
use sgptp.Prelude.{ℕ, zero, suc, ◌+◌, ◌-◌, List, [], ◌∷◌, ◌==◌, if◌then◌else◌}
use sgptp.Mips.Words.{add32}
use sgptp.SystemCalls.Exec.{Exec, pure, abort, ◌>>=◌, ◌>>◌}
use sgptp.SystemCalls.State.{State, Services}

module _ {W : Type 0} (sv : Services W) where
  -- The loop of GetLengthParam, on fuel: `i` characters were read.
  unfoldable pub scan_string : ℕ → ℕ → ℕ → Exec (State W) ℕ
  scan_string zero addr i = abort
  scan_string (suc fuel) addr i = do
    c ← sv.read_byte addr
    let rest = scan_string fuel (add32 addr 1) (i + 1)
    if c == 0 then pure (i + 1) else rest

  unfoldable pub get_length_param : ℕ → ℕ → Exec (State W) ℕ
  get_length_param fuel addr = do i ← scan_string fuel addr 0; pure (i + 1)

  -- The characters that GetStringParam copies before a NUL, of `maxlen` at most. A character is the
  -- byte that was read, whatever sign its `char` has.
  unfoldable pub copy_string : ℕ → ℕ → Exec (State W) (List ℕ)
  copy_string zero addr = pure []
  copy_string (suc maxlen) addr = do
    c ← sv.read_byte addr
    let rest = copy_string maxlen (add32 addr 1)
    if c == 0 then pure [] else (do text ← rest; pure (c ∷ text))

  -- `text` before its character `n`, where GetStringParam writes a NUL.
  unfoldable pub cut : ℕ → List ℕ → List ℕ
  cut n [] = []
  cut zero (c ∷ text) = []
  cut (suc n) (c ∷ text) = c ∷ cut n text

  unfoldable pub get_string_param : ℕ → ℕ → Exec (State W) (List ℕ)
  get_string_param addr maxlen = do text ← copy_string maxlen addr; pure (cut (maxlen - 1) text)

  -- The two calls by which a system call gets a text.
  abbrev pub text_at : ℕ → ℕ → Exec (State W) (List ℕ)
  text_at fuel addr = do size ← get_length_param fuel addr; get_string_param addr size

  -- The loop of SC_TTY_SEND, which has no bound, on fuel. The array of MAXSTRLEN characters that it
  -- fills is taken to be long enough.
  unfoldable pub read_text : ℕ → ℕ → Exec (State W) (List ℕ)
  read_text zero addr = abort
  read_text (suc fuel) addr = do
    c ← sv.read_byte addr
    let rest = read_text fuel (add32 addr 1)
    if c == 0 then pure [] else (do text ← rest; pure (c ∷ text))

  -- `WriteMem(addr++, 1, buffer[i])` and `ReadMem(addr++, 1, &c, false)` over an array.
  unfoldable pub write_bytes : ℕ → List ℕ → Exec (State W) ℕ
  write_bytes addr [] = pure addr
  write_bytes addr (b ∷ buffer) = do sv.write_mem addr 1 b; write_bytes (add32 addr 1) buffer

  unfoldable pub read_bytes : ℕ → ℕ → Exec (State W) (List ℕ)
  read_bytes addr zero = pure []
  read_bytes addr (suc n) = do
    c ← sv.read_byte addr
    rest ← read_bytes (add32 addr 1) n
    pure (c ∷ rest)
