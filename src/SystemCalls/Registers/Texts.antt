-- ===== src/SystemCalls/Registers/Texts.antt =====
-- What the texts and the identifiers of a system call keep of the registers.
use sgptp.Prelude.{ℕ, zero, suc, Option, none, some, List, [], ◌∷◌}
use sgptp.SystemCalls.Exec.{Exec}
use sgptp.SystemCalls.Preserving.{Preserves, bind-Preserves, test-Preserves, option-Preserves}
use sgptp.SystemCalls.Parts.{PreservesServices}
use sgptp.SystemCalls.State.{State, Services, ObjectType, search_object}
use sgptp.SystemCalls.Arguments.{
  scan_string, get_length_param, copy_string, get_string_param, write_bytes, read_bytes, read_text,
}
use sgptp.SystemCalls.Threads.{is_object, with_object}
use sgptp.SystemCalls.Registers.Frames.{Frame, frame_rules, search_object-Frame}

module _ {W : Type 0} {old : ℕ → ℕ} (sv : Services W)
    (keep : PreservesServices (Frame old) sv) where
  pub scan_string-Frame :
      (fuel addr i : ℕ) → Preserves (Frame old {W = W}) (scan_string sv fuel addr i)
  unfolding scan_string
  scan_string-Frame zero addr i = search frame_rules
  scan_string-Frame (suc fuel) addr i =
      search (frame_rules, keep.read_byte, scan_string-Frame fuel) depth 12

  pub get_length_param-Frame :
      (fuel addr : ℕ) → Preserves (Frame old {W = W}) (get_length_param sv fuel addr)
  unfolding get_length_param
  get_length_param-Frame fuel addr = search (frame_rules, scan_string-Frame) depth 12

  pub copy_string-Frame :
      (maxlen addr : ℕ) → Preserves (Frame old {W = W}) (copy_string sv maxlen addr)
  unfolding copy_string
  copy_string-Frame zero addr = search (frame_rules) depth 12
  copy_string-Frame (suc maxlen) addr =
      search (frame_rules, keep.read_byte, copy_string-Frame maxlen) depth 12

  pub read_text-Frame : (fuel addr : ℕ) → Preserves (Frame old {W = W}) (read_text sv fuel addr)
  unfolding read_text
  read_text-Frame zero addr = search (frame_rules) depth 12
  read_text-Frame (suc fuel) addr =
      search (frame_rules, keep.read_byte, read_text-Frame fuel) depth 12

  pub get_string_param-Frame :
      (addr maxlen : ℕ) → Preserves (Frame old {W = W}) (get_string_param sv addr maxlen)
  unfolding get_string_param
  get_string_param-Frame addr maxlen = search (frame_rules, copy_string-Frame) depth 12

  pub write_bytes-Frame :
      (buffer : List ℕ) (addr : ℕ) → Preserves (Frame old {W = W}) (write_bytes sv addr buffer)
  unfolding write_bytes
  write_bytes-Frame [] addr = search (frame_rules) depth 12
  write_bytes-Frame (b ∷ buffer) addr =
      search (frame_rules, keep.write_mem, write_bytes-Frame buffer) depth 12

  pub read_bytes-Frame : (n addr : ℕ) → Preserves (Frame old {W = W}) (read_bytes sv addr n)
  unfolding read_bytes
  read_bytes-Frame zero addr = search (frame_rules) depth 12
  read_bytes-Frame (suc n) addr = search (frame_rules, keep.read_byte, read_bytes-Frame n) depth 12

  pub is_object-Frame :
      (fuel : ℕ) (o : Option ℕ) (type : ObjectType)
      → Preserves (Frame old {W = W}) (is_object sv fuel o type)
  unfolding is_object
  is_object-Frame fuel none type = search frame_rules
  is_object-Frame fuel (some ptr) type = search frame_rules

  pub with_object-Frame :
      (fuel : ℕ) (type : ObjectType) (id : ℕ) (found : ℕ → Exec (State W) (Unit {0}))
      (missing : Exec (State W) (Unit {0}))
      → ((ptr : ℕ) → Preserves (Frame old) (found ptr))
      → Preserves (Frame old) missing
      → Preserves (Frame old) (with_object sv fuel type id found missing)
  unfolding with_object
  with_object-Frame fuel type id found missing kf km =
      bind-Preserves (search_object id) _ (search_object-Frame id) (λ object.
        bind-Preserves (is_object sv fuel object type) _ (is_object-Frame fuel object type)
          (λ ok. test-Preserves ok _ _ (option-Preserves object missing found km kf) km))
