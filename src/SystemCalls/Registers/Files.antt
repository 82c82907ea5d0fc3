-- ===== src/SystemCalls/Registers/Files.antt =====
-- What the system calls of Files.antt keep of the registers.
use sgptp.Prelude.{ℕ, Option, none, some, List}
use sgptp.Directory.{ErrorCode}
use sgptp.SystemCalls.Preserving.{Preserves}
use sgptp.SystemCalls.Parts.{PreservesServices}
use sgptp.SystemCalls.State.{Services}
use sgptp.SystemCalls.Files.{
  give_file, report, report_name, bad_file, hand_over, without_acia, mapped, sc_create, sc_open,
  sc_read, sc_write, sc_seek, sc_close, sc_remove, sc_mkdir, sc_rmdir, sc_fs_list, sc_tty_send,
  sc_tty_receive, sc_mmap,
}
use sgptp.SystemCalls.Handler.{file_call}
use sgptp.Prelude.Int.{ℤ, pos, negsuc}
use sgptp.SystemCalls.Registers.Frames.{Frame, frame_rules}
use sgptp.SystemCalls.Registers.Texts.{
  get_length_param-Frame, read_text-Frame, get_string_param-Frame, write_bytes-Frame,
  read_bytes-Frame, with_object-Frame,
}
use sgptp.SystemCalls.Registers.Sync.{sync_call-Frame}

module _ {W : Type 0} {old : ℕ → ℕ} (sv : Services W)
    (keep : PreservesServices (Frame old) sv) where
  pub report-Frame :
      (fuel : ℕ) (err : ErrorCode) (ch : List ℕ)
      → Preserves (Frame old {W = W}) (report sv fuel err ch)
  unfolding report
  report-Frame fuel err ch = search (frame_rules) depth 12

  pub report_name-Frame :
      (fuel : ℕ) (err : ErrorCode) (ch : List ℕ)
      → Preserves (Frame old {W = W}) (report_name sv fuel err ch)
  unfolding report_name
  report_name-Frame fuel err ch = search (frame_rules) depth 12

  pub bad_file-Frame : (fuel : ℕ) (f : ℕ) → Preserves (Frame old {W = W}) (bad_file sv fuel f)
  unfolding bad_file
  bad_file-Frame fuel f = search (frame_rules) depth 12

  pub hand_over-Frame :
      (fuel : ℕ) (addr : ℕ) (buffer : List ℕ)
      → Preserves (Frame old {W = W}) (hand_over sv fuel addr buffer)
  unfolding hand_over
  hand_over-Frame fuel addr buffer = search (frame_rules, write_bytes-Frame) depth 12

  pub sc_create-Frame : (fuel : ℕ) → Preserves (Frame old {W = W}) (sc_create sv fuel)
  unfolding sc_create
  sc_create-Frame fuel =
      search
        (frame_rules, get_length_param-Frame, get_string_param-Frame, report-Frame, keep.fs_create)
        depth 12

  pub give_file-Frame :
      (fuel : ℕ) (ch : List ℕ) (file : Option ℕ)
      → Preserves (Frame old {W = W}) (give_file sv fuel ch file)
  unfolding give_file
  give_file-Frame fuel ch none = search frame_rules
  give_file-Frame fuel ch (some file) = search frame_rules

  pub sc_open-Frame : (fuel : ℕ) → Preserves (Frame old {W = W}) (sc_open sv fuel)
  unfolding sc_open
  sc_open-Frame fuel =
      search
        (
          frame_rules, get_length_param-Frame, get_string_param-Frame, give_file-Frame,
          keep.table_open,
        )
        depth 12

  pub sc_read-Frame : (fuel : ℕ) → Preserves (Frame old {W = W}) (sc_read sv fuel)
  unfolding sc_read
  sc_read-Frame fuel =
      search
        (
          frame_rules, with_object-Frame, hand_over-Frame, bad_file-Frame, keep.file_read,
          keep.console_get,
        )
        depth 12

  pub sc_write-Frame : (fuel : ℕ) → Preserves (Frame old {W = W}) (sc_write sv fuel)
  unfolding sc_write
  sc_write-Frame fuel =
      search
        (
          frame_rules, with_object-Frame, read_bytes-Frame, bad_file-Frame, keep.file_write,
          keep.console_put,
        )
        depth 12

  pub sc_seek-Frame : (fuel : ℕ) → Preserves (Frame old {W = W}) (sc_seek sv fuel)
  unfolding sc_seek
  sc_seek-Frame fuel =
      search (frame_rules, with_object-Frame, bad_file-Frame, keep.file_seek) depth 12

  pub sc_close-Frame : (fuel : ℕ) → Preserves (Frame old {W = W}) (sc_close sv fuel)
  unfolding sc_close
  sc_close-Frame fuel =
      search (frame_rules, with_object-Frame, bad_file-Frame, keep.table_close, keep.delete) depth
        12

  pub sc_remove-Frame : (fuel : ℕ) → Preserves (Frame old {W = W}) (sc_remove sv fuel)
  unfolding sc_remove
  sc_remove-Frame fuel =
      search
        (
          frame_rules, get_length_param-Frame, get_string_param-Frame, report_name-Frame,
          keep.table_remove,
        )
        depth 12

  pub sc_mkdir-Frame : (fuel : ℕ) → Preserves (Frame old {W = W}) (sc_mkdir sv fuel)
  unfolding sc_mkdir
  sc_mkdir-Frame fuel =
      search
        (frame_rules, get_length_param-Frame, get_string_param-Frame, report-Frame, keep.fs_mkdir)
        depth 12

  pub sc_rmdir-Frame : (fuel : ℕ) → Preserves (Frame old {W = W}) (sc_rmdir sv fuel)
  unfolding sc_rmdir
  sc_rmdir-Frame fuel =
      search
        (
          frame_rules, get_length_param-Frame, get_string_param-Frame, report_name-Frame,
          keep.fs_rmdir,
        )
        depth 12

  pub sc_fs_list-Frame : (fuel : ℕ) → Preserves (Frame old {W = W}) (sc_fs_list sv fuel)
  unfolding sc_fs_list
  sc_fs_list-Frame fuel = search (frame_rules, keep.fs_list) depth 12

  pub without_acia-Frame : (fuel : ℕ) → Preserves (Frame old {W = W}) (without_acia sv fuel)
  unfolding without_acia
  without_acia-Frame fuel = search (frame_rules) depth 12

  pub sc_tty_send-Frame : (fuel : ℕ) → Preserves (Frame old {W = W}) (sc_tty_send sv fuel)
  unfolding sc_tty_send
  sc_tty_send-Frame fuel =
      search (frame_rules, read_text-Frame, without_acia-Frame, keep.tty_send) depth 12

  pub sc_tty_receive-Frame : (fuel : ℕ) → Preserves (Frame old {W = W}) (sc_tty_receive sv fuel)
  unfolding sc_tty_receive
  sc_tty_receive-Frame fuel =
      search (frame_rules, write_bytes-Frame, without_acia-Frame, keep.tty_receive, keep.write_mem)
        depth 12

  pub mapped-Frame : (fuel : ℕ) (result : ℤ) → Preserves (Frame old {W = W}) (mapped sv fuel result)
  unfolding mapped
  mapped-Frame fuel (pos address) = search frame_rules
  mapped-Frame fuel (negsuc n) = search frame_rules

  pub sc_mmap-Frame : (fuel : ℕ) → Preserves (Frame old {W = W}) (sc_mmap sv fuel)
  unfolding sc_mmap
  sc_mmap-Frame fuel = search (frame_rules, with_object-Frame, mapped-Frame, keep.mmap) depth 12

  pub file_call-Frame :
      (fuel page_size type : ℕ) → Preserves (Frame old {W = W}) (file_call sv fuel page_size type)
  unfolding file_call
  file_call-Frame fuel page_size type =
      search
        (
          frame_rules, sync_call-Frame, sc_create-Frame, sc_open-Frame, sc_read-Frame,
          sc_write-Frame, sc_seek-Frame, sc_close-Frame, sc_tty_send-Frame, sc_tty_receive-Frame,
          sc_mkdir-Frame, sc_rmdir-Frame, sc_remove-Frame, sc_fs_list-Frame, sc_mmap-Frame,
        )
        depth 24
