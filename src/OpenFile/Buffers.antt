-- ===== src/OpenFile/Buffers.antt =====
-- nachos/filesys/openfile.cc: the buffer of WriteAt keeps the bytes around those that are written.
use native.Mathlib.Nat as Nat
use sgptp.Prelude.{
  ℕ, ◌+◌, ◌-◌, ◌*◌, ◌/◌, ◌≤◌, ◌<◌, ◌≡◌, refl, sym, ap, ◌∙◌, ◌⊎◌, inl, inr, Bool, true, false, not,
  some, List, length, get_elem?, ◌==◌, ◌&&◌, ◌||◌, if◌then◌else◌, arith, Bool-cases, ==_iff,
}
use sgptp.FileHeader.{FileHeader}
use sgptp.OpenFile.{read_at, fill_buffer}
use sgptp.OpenFile.Reading.{IsFile, span, byte_at, readable, read_at-Read}

module _ (sector_size total : ℕ) (blank : ℕ → List ℕ) where
  -- A part that is read into the buffer if the test says so: the buffer `r` after it.
  record PartRead (hdr : FileHeader) (disk : List ℕ) (test : Bool) (buf : List ℕ)
      (place position : ℕ) (r : List ℕ) : Type 0 where
    pub size : length r ≡ length buf
    pub inside :
        (k : ℕ)
        → test ≡ true
        → k < sector_size
        → position + k < hdr.num_bytes
        → get_elem? r (place + k) ≡ byte_at sector_size hdr disk (position + k)
    pub skipped : (q : ℕ) → test ≡ false → get_elem? r q ≡ get_elem? buf q
    pub below : (q : ℕ) → q < place → get_elem? r q ≡ get_elem? buf q

  read_part :
      {hdr : FileHeader} {disk : List ℕ} (f : IsFile sector_size total hdr disk) (test : Bool)
      (buf : List ℕ) (n place position : ℕ)
      → ((m : ℕ) → length (blank m) ≡ m)
      → place + sector_size ≤ length buf
      → (r : ℕ × List ℕ) × ((if test
            then read_at sector_size total blank hdr disk buf place sector_size position
            else some (n, buf))
          ≡ some r)
        × PartRead hdr disk test buf place position r.1
  read_part f false buf n place position sized room = (
    (n, buf),
    refl,
    record {
      size = refl;
      inside = λ k h. absurd (ground (arith, h));
      skipped = λ q h. refl;
      below = λ q h. refl;
    },
  )
  read_part {hdr = hdr} f true buf n place position sized room =
      let (r, ran, c) =
        read_at-Read sector_size total blank f buf place sector_size position sized
          (ground arith) in
      (
        (readable sector_size total blank hdr sector_size position, r),
        ran,
        record {
          size = c.size;
          inside = λ k h small in_file. c.inside k (ground arith);
          skipped = λ q h. absurd (ground (arith, h));
          below = c.below;
        },
      )

  -- A byte of the buffer that was read in with the last part.
  last_byte :
      {hdr : FileHeader} {disk : List ℕ} (first d last q : ℕ) (test : Bool) (head tail : List ℕ)
      → PartRead hdr disk test head (d * sector_size) (last * sector_size) tail
      → test ≡ true
      → last * sector_size ≡ first * sector_size + d * sector_size
      → d * sector_size ≤ q
      → q < d * sector_size + sector_size
      → first * sector_size + q < hdr.num_bytes
      → get_elem? tail q ≡ byte_at sector_size hdr disk (first * sector_size + q)
  last_byte {hdr = hdr} {disk = disk} first d last q test head tail t yes_read parts lo hi in_file =
      let k = q - d * sector_size in
      let place : d * sector_size + k ≡ q = omega arith in
      let at : last * sector_size + k ≡ first * sector_size + q = omega (arith, parts) in
      ap (get_elem? tail) (sym place)
      ∙ t.inside k yes_read (omega arith) (omega (arith, at))
      ∙ ap (byte_at sector_size hdr disk) at

  -- A byte that was read in with the first part, and not touched after that.
  first_byte :
      {hdr : FileHeader} {disk : List ℕ} (first q : ℕ) (test : Bool) (buf head : List ℕ)
      → PartRead hdr disk test buf 0 (first * sector_size) head
      → test ≡ true
      → q < sector_size
      → first * sector_size + q < hdr.num_bytes
      → get_elem? head q ≡ byte_at sector_size hdr disk (first * sector_size + q)
  first_byte first q test buf head h yes_read small in_file =
      let place : 0 + q ≡ q = omega arith in
      ap (get_elem? head) (sym place) ∙ h.inside q yes_read small in_file

  -- The bytes that are kept, by the tests for aligned ends and for a single part.
  module _ {hdr : FileHeader} {disk : List ℕ} (position num_bytes first d last : ℕ) (a l e : Bool)
      (buf head tail : List ℕ) (h : PartRead hdr disk (not a) buf 0 (first * sector_size) head)
      (t : PartRead hdr disk
        (not l && (not e || a))
        head
        (d * sector_size)
        (last * sector_size)
        tail)
      (aligned : a ≡ true → position ≡ first * sector_size)
      (ends : l ≡ true → position + num_bytes ≡ last * sector_size + sector_size)
      (single : e ≡ true → d ≡ 0) (several : e ≡ false → sector_size ≤ d * sector_size)
      (parts : last * sector_size ≡ first * sector_size + d * sector_size) (q : ℕ)
      (small : q < d * sector_size + sector_size)
      (in_file : first * sector_size + q < hdr.num_bytes) where
    kept_before :
        position < first * sector_size + sector_size
        → first * sector_size + q < position
        → get_elem? tail q ≡ byte_at sector_size hdr disk (first * sector_size + q)
    kept_before near before =
        let unaligned : a ≡ false = ground (arith, aligned) in
        let from_head =
          first_byte first q (not a) buf head h (rw unaligned refl) (omega arith) in_file in
        elim (Bool-cases e) [
          | inl one ↦ t.skipped q (rw (unaligned, one) (ground arith)) ∙ from_head
          | inr more ↦ t.below q (omega (arith, several more)) ∙ from_head
        ]

    kept_behind :
        last * sector_size < position + num_bytes
        → position + num_bytes ≤ first * sector_size + q
        → get_elem? tail q ≡ byte_at sector_size hdr disk (first * sector_size + q)
    kept_behind near behind =
        let open_end : l ≡ false = ground (arith, ends) in
        let from_tail = (λ (test : (not l && (not e || a)) ≡ true).
          last_byte first d last q _ head tail t test parts (omega arith) small in_file) in
        elim (Bool-cases e) [
          | inl one ↦ elim (Bool-cases a) [
            | inl lined_up ↦ from_tail (rw (open_end, one, lined_up) refl)
            | inr unaligned ↦
                t.skipped q (rw (open_end, one, unaligned) refl)
                ∙ first_byte first q (not a) buf head h (rw unaligned refl)
                    (omega (arith, ap (λ n. n * sector_size) (single one))) in_file
          ]
          | inr more ↦ from_tail (rw (open_end, more) refl)
        ]

  -- What fill_buffer leaves: every byte of the parts that is in the file and not written.
  pub record Filled (hdr : FileHeader) (disk : List ℕ) (position num_bytes first sectors : ℕ)
      (buf : List ℕ) : Type 0 where
    pub size : length buf ≡ sectors * sector_size
    pub kept :
        (q : ℕ)
        → q < sectors * sector_size
        → first * sector_size + q < hdr.num_bytes
        → (first * sector_size + q < position) ⊎ (position + num_bytes ≤ first * sector_size + q)
        → get_elem? buf q ≡ byte_at sector_size hdr disk (first * sector_size + q)

  pub fill_buffer-Filled :
      {hdr : FileHeader} {disk : List ℕ} (f : IsFile sector_size total hdr disk)
      (position num_bytes : ℕ)
      → ((m : ℕ) → length (blank m) ≡ m)
      → 0 < num_bytes
      → position + num_bytes ≤ hdr.num_bytes
      → (let first = position / sector_size in
          let last = (position + num_bytes - 1) / sector_size in
          (buf : List ℕ) × (fill_buffer sector_size total blank hdr disk position num_bytes first
              last
            ≡ some buf)
          × Filled hdr disk position num_bytes first (1 + last - first) buf)
  unfolding fill_buffer
  fill_buffer-Filled {hdr = hdr} {disk = disk} f position num_bytes sized some_count in_file =
      let first = position / sector_size in
      let last = (position + num_bytes - 1) / sector_size in
      let sectors = 1 + last - first in
      let s = span sector_size position num_bytes f.some_bytes some_count in
      let d = last - first in
      let parts : last * sector_size ≡ first * sector_size + d * sector_size =
        ap (λ n. n * sector_size) (omega (arith, s.ordered)) ∙ Nat.add-mul first d sector_size in
      let all : sectors * sector_size ≡ d * sector_size + sector_size =
        ap (λ n. n * sector_size) {x = sectors} {y = d + 1} (omega (arith, s.ordered))
        ∙ omega arith in
      let first_aligned = position == first * sector_size in
      let last_aligned = position + num_bytes == (last + 1) * sector_size in
      let needed = not last_aligned && (not (first == last) || first_aligned) in
      let blank_size = sized (sectors * sector_size) in
      let (head, one, h) =
        read_part f (not first_aligned) (blank (sectors * sector_size)) 0 0 (first * sector_size)
          sized (omega (arith, blank_size, all)) in
      let (tail, two, t) =
        read_part f needed head.1 head.0 (d * sector_size) (last * sector_size) sized
          (omega (arith, h.size, blank_size, all)) in
      (
        tail.1,
        rw (one, two) refl,
        record {
          size = t.size ∙ h.size ∙ blank_size;
          kept = λ q small in_file' where_.
              let aligned : first_aligned ≡ true → position ≡ first * sector_size =
                λ y. ground (arith, y) in
              let ends : last_aligned ≡ true
                  → position + num_bytes ≡ last * sector_size + sector_size =
                λ y.
                  omega (arith, (==_iff (position + num_bytes) ((last + 1) * sector_size)).0 y) in
              let single : (first == last) ≡ true → d ≡ 0 = λ y. ground (arith, y) in
              let several : (first == last) ≡ false → sector_size ≤ d * sector_size = λ y.
                let more : 1 ≤ d = ground (arith, y, s.ordered) in
                omega (arith, Nat.mul-le-mul_right sector_size more) in
              let place : q < d * sector_size + sector_size = omega (arith, all) in
              elim where_ [
                | inl before ↦
                    kept_before position num_bytes first d last first_aligned last_aligned
                      (first == last) (blank (sectors * sector_size)) head.1 tail.1 h t aligned ends
                      single several parts q place in_file' s.near before
                | inr behind ↦
                    kept_behind position num_bytes first d last first_aligned last_aligned
                      (first == last) (blank (sectors * sector_size)) head.1 tail.1 h t aligned ends
                      single several parts q place in_file'
                      (omega (arith, Nat.div-mul-le_self (position + num_bytes - 1) sector_size))
                      behind
              ];
        },
      )
