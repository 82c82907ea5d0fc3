-- ===== src/SystemCalls/Files.antt =====
-- nachos/kernel/exception.cc: the system calls on files, directories, the serial line and mapped files.
use sgptp.Prelude.{
  ℕ, Bool, true, false, not, Option, none, some, List, [], ◌∷◌, length, ◌==◌, if◌then◌else◌,
}
use sgptp.Prelude.Int.{ℤ, pos, negsuc}
use sgptp.Directory.{
  ErrorCode, no_error, out_of_memory, out_of_disk, open_file_error, invalid_file_id, no_acia,
}
use sgptp.FileSystem.{is_no_error}
use sgptp.SystemCalls.Exec.{Exec, gets, ◌>>=◌, ◌>>◌}
use sgptp.SystemCalls.State.{
  State, Services, file_type, minus_one, is_above, read_int_register, write_int_register, set_msg,
  add_object, remove_object,
}
use sgptp.SystemCalls.Arguments.{read_text, text_at, write_bytes, read_bytes}
use sgptp.SystemCalls.Threads.{with_object}

abbrev pub is_out_of_disk : ErrorCode → Bool
is_out_of_disk out_of_disk = true
is_out_of_disk _ = false

abbrev pub console_input : ℕ
console_input = 0

abbrev pub console_output : ℕ
console_output = 1

-- "Mmap() failed\n" and "Invalid size".
abbrev pub mmap_failed : List ℕ
mmap_failed =
    b'M' ∷ b'm' ∷ b'a' ∷ b'p' ∷ b'(' ∷ b')' ∷ b' ' ∷ b'f' ∷ b'a' ∷ b'i' ∷ b'l' ∷ b'e' ∷ b'd' ∷ 10
    ∷ []

abbrev pub invalid_size : List ℕ
invalid_size =
    b'I' ∷ b'n' ∷ b'v' ∷ b'a' ∷ b'l' ∷ b'i' ∷ b'd' ∷ b' ' ∷ b's' ∷ b'i' ∷ b'z' ∷ b'e' ∷ []

module _ {W : Type 0} (sv : Services W) (fuel : ℕ) where
  -- The end of SC_CREATE and SC_MKDIR.
  unfoldable pub report : ErrorCode → List ℕ → Exec (State W) (Unit {0})
  report err ch =
      if is_no_error err
      then (do set_msg [] no_error; write_int_register 2 0)
      else (do set_msg (if is_out_of_disk err then [] else ch) err; write_int_register 2 minus_one)

  unfoldable pub sc_create : Exec (State W) (Unit {0})
  sc_create = do
    addr ← read_int_register 4
    size ← read_int_register 5
    ch ← text_at sv fuel addr
    err ← sv.fs_create ch size
    report err ch

  -- The end of SC_OPEN.
  unfoldable pub give_file : List ℕ → Option ℕ → Exec (State W) (Unit {0})
  give_file ch none = do set_msg ch open_file_error; write_int_register 2 minus_one
  give_file ch (some file) = do fid ← add_object file; set_msg [] no_error; write_int_register 2 fid

  unfoldable pub sc_open : Exec (State W) (Unit {0})
  sc_open = do
    addr ← read_int_register 4
    ch ← text_at sv fuel addr
    file ← sv.table_open ch
    give_file ch file

  -- `numread = -1` and its like.
  unfoldable pub bad_file : ℕ → Exec (State W) (Unit {0})
  bad_file f = do set_msg (sv.decimal f) invalid_file_id; write_int_register 2 minus_one

  -- The loop that copies the buffer, and the result.
  unfoldable pub hand_over : ℕ → List ℕ → Exec (State W) (Unit {0})
  hand_over addr buffer = do
    set_msg [] no_error
    end ← write_bytes sv addr buffer
    write_int_register 2 (length buffer)

  -- What is read is as long as the result of the read.
  unfoldable pub sc_read : Exec (State W) (Unit {0})
  sc_read = do
    addr ← read_int_register 4
    size ← read_int_register 5
    f ← read_int_register 6
    if not (f == console_input)
        then with_object sv fuel file_type f
            (λ file. do buffer ← sv.file_read file size; hand_over addr buffer) (bad_file f)
        else (do buffer ← sv.console_get size; hand_over addr buffer)

  unfoldable pub sc_write : Exec (State W) (Unit {0})
  sc_write = do
    addr ← read_int_register 4
    size ← read_int_register 5
    f ← read_int_register 6
    buffer ← read_bytes sv addr size
    if is_above f console_output
        then with_object sv fuel file_type f
            (λ file. do
              numwrite ← sv.file_write file buffer
              set_msg [] no_error
              write_int_register 2 numwrite)
            (bad_file f)
        else if f == console_output
        then (do sv.console_put buffer; set_msg [] no_error; write_int_register 2 size)
        else bad_file f

  unfoldable pub sc_seek : Exec (State W) (Unit {0})
  sc_seek = do
    offset ← read_int_register 4
    f ← read_int_register 5
    if is_above f console_output
        then with_object sv fuel file_type f
            (λ file. do sv.file_seek file offset; set_msg [] no_error; write_int_register 2 0)
            (bad_file f)
        else bad_file f

  unfoldable pub sc_close : Exec (State W) (Unit {0})
  sc_close = do
    fid ← read_int_register 4
    with_object sv fuel file_type fid
        (λ file. do
          name ← gets (sv.file_name file)
          sv.table_close name
          remove_object fid
          sv.delete file
          write_int_register 2 0
          set_msg [] no_error)
        (bad_file fid)

  -- The end of SC_REMOVE and SC_RMDIR.
  unfoldable pub report_name : ErrorCode → List ℕ → Exec (State W) (Unit {0})
  report_name err ch =
      if is_no_error err
      then (do set_msg [] no_error; write_int_register 2 0)
      else (do set_msg ch err; write_int_register 2 minus_one)

  unfoldable pub sc_remove : Exec (State W) (Unit {0})
  sc_remove = do
    addr ← read_int_register 4
    ch ← text_at sv fuel addr
    err ← sv.table_remove ch
    report_name err ch

  unfoldable pub sc_mkdir : Exec (State W) (Unit {0})
  sc_mkdir = do
    addr ← read_int_register 4
    name ← text_at sv fuel addr
    good ← sv.fs_mkdir name
    report good name

  unfoldable pub sc_rmdir : Exec (State W) (Unit {0})
  sc_rmdir = do
    addr ← read_int_register 4
    name ← text_at sv fuel addr
    good ← sv.fs_rmdir name
    report_name good name

  unfoldable pub sc_fs_list : Exec (State W) (Unit {0})
  sc_fs_list = do sv.fs_list; set_msg [] no_error

  unfoldable pub without_acia : Exec (State W) (Unit {0})
  without_acia = do write_int_register 2 minus_one; set_msg [] no_acia

  unfoldable pub sc_tty_send : Exec (State W) (Unit {0})
  sc_tty_send =
      if sv.has_acia
      then (do
        addr ← read_int_register 4
        buff ← read_text sv fuel addr
        result ← sv.tty_send buff
        write_int_register 2 result
        set_msg [] no_error)
      else without_acia

  -- `buff` has `length + 1` characters.
  unfoldable pub sc_tty_receive : Exec (State W) (Unit {0})
  sc_tty_receive =
      if sv.has_acia
      then (do
        addr ← read_int_register 4
        size ← read_int_register 5
        (result, buff) ← sv.tty_receive size
        end ← write_bytes sv addr buff
        sv.write_mem end 1 0
        write_int_register 2 result
        set_msg [] no_error)
      else without_acia

  -- The result of Mmap in a register.
  unfoldable pub mapped : ℤ → Exec (State W) (Unit {0})
  mapped (pos address) = do write_int_register 2 address; set_msg [] no_error
  mapped (negsuc n) = do write_int_register 2 minus_one; set_msg mmap_failed out_of_memory

  unfoldable pub sc_mmap : Exec (State W) (Unit {0})
  sc_mmap = do
    fid ← read_int_register 4
    size ← read_int_register 5
    let refuse = do
      write_int_register 2 minus_one
      if is_above size 0
          then set_msg (sv.decimal fid) invalid_file_id
          else set_msg invalid_size no_error
    if is_above size 0
        then with_object sv fuel file_type fid
            (λ file. do
              process ← gets sv.process_owner
              result ← sv.mmap process file size
              mapped result)
            refuse
        else refuse
