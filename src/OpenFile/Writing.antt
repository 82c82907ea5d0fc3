-- ===== src/OpenFile/Writing.antt =====
-- nachos/filesys/openfile.cc: WriteAt changes the bytes that it is given, and no others.
use native.Mathlib.Nat as Nat
use sgptp.Prelude.{
  ℕ, zero, suc, ◌+◌, ◌-◌, ◌*◌, ◌/◌, ◌%◌, ◌≤◌, ◌<◌, ◌≡◌, ◌≢◌, refl, sym, ap, ◌∙◌, ◌⊎◌, inl, inr,
  some, List, [], length, get_elem?, ltb, arith, lt→ltb, Bool-cases,
}
use sgptp.FileHeader.{FileHeader}
use sgptp.OpenFile.{write_sector, write_sectors, transfer}
use sgptp.OpenFile.Copies.{Copied, bcopy-Copied}
use sgptp.OpenFile.Reading.{
  IsFile, span, byte_at, byte_at-sector, part_in_disk, byte_to_sector-part, part_of, div_mono,
}
use sgptp.OpenFile.Buffers.{Filled, fill_buffer-Filled}

-- Place p of the disk is in no byte of sector s.
abbrev pub Outside : ℕ → ℕ → ℕ → Type 0
Outside sector_size s p = (p < s * sector_size) ⊎ (s * sector_size + sector_size ≤ p)

other_sector :
    (sector_size s t k : ℕ) → s ≢ t → k < sector_size → Outside sector_size t (s * sector_size + k)
other_sector sector_size s t k h small = elim (Bool-cases (ltb s t)) [
  | inl less ↦
      let step : suc s ≤ t = ground arith in
      inl (omega (arith, Nat.mul-le-mul_right sector_size step))
  | inr more ↦
      let step : suc t ≤ s = ground arith in
      inr (omega (arith, Nat.mul-le-mul_right sector_size step))
]

module _ (sector_size total : ℕ) where
  -- What the loop of WriteAt has done to the disk `now`: parts first + d to first + d + n are those of
  -- the buffer, and nothing else has changed.
  pub record PartsWritten {hdr : FileHeader} {disk : List ℕ} (f : IsFile sector_size total hdr disk)
      (first n d : ℕ) (buf now disk' : List ℕ) : Type 0 where
    pub size : length disk' ≡ length now
    pub parts :
        (c k : ℕ)
        → d ≤ c
        → c < d + n
        → k < sector_size
        → get_elem? disk' (f.sector (first + c) * sector_size + k)
          ≡ get_elem? buf (c * sector_size + k)
    pub others :
        (p : ℕ)
        → ((c : ℕ) → d ≤ c → c < d + n → Outside sector_size (f.sector (first + c)) p)
        → get_elem? disk' p ≡ get_elem? now p

  write_sectors-PartsWritten :
      {hdr : FileHeader} {disk : List ℕ} (f : IsFile sector_size total hdr disk) (first n d : ℕ)
      (buf now : List ℕ)
      → first + (d + n) ≤ hdr.num_sectors
      → (d + n) * sector_size ≤ length buf
      → length now ≡ length disk
      → (disk' : List ℕ) × (write_sectors sector_size total hdr buf first n d now ≡ some disk')
        × PartsWritten f first n d buf now disk'
  unfolding write_sectors write_sector
  write_sectors-PartsWritten f first zero d buf now p q same = (
    now,
    refl,
    record { size = refl; parts = λ c k h h' h''. absurd (omega arith); others = λ x h. refl },
  )
  write_sectors-PartsWritten f first (suc n) d buf now p q same =
      let s = f.sector (first + d) in
      let room = Nat.mul-le-mul_right {m = d + 1} {n = d + suc n} sector_size (omega arith) in
      let (one, copied, c1) =
        bcopy-Copied sector_size buf (d * sector_size) now (s * sector_size) (omega (arith, room))
          (omega (arith, part_in_disk sector_size total f (first + d) (omega arith), same)) in
      let (disk', rest, r) =
        write_sectors-PartsWritten f first n (d + 1) buf one (omega arith) (omega arith)
          (c1.size ∙ same) in
      (
        disk',
        rw
            (
              byte_to_sector-part sector_size total f (first + d) (omega arith),
              lt→ltb _ _ (f.in_disk (first + d) (omega arith)),
              copied,
            )
            rest,
        record {
          size = r.size ∙ c1.size;
          parts = λ c k lo hi small. elim (Bool-cases (ltb d c)) [
            | inl later ↦ r.parts c k (ground arith) (omega arith) small
            | inr first_one ↦
                let at : c ≡ d = ground arith in
                rw at (
                  r.others (s * sector_size + k) (λ e lo' hi'.
                    other_sector sector_size s (f.sector (first + e)) k
                      (λ eq.
                        omega
                          (arith, f.apart (first + d) (first + e) (omega arith) (omega arith) eq))
                      small)
                  ∙ c1.inside k small)
          ];
          others = λ x out.
              r.others x (λ c lo hi. out c (omega arith) (omega arith))
              ∙ (elim (out d (omega arith) (omega arith)) [
                | inl before ↦ c1.below x before
                | inr behind ↦ c1.above x behind
              ]);
        },
      )

  -- The file on the disk after the write: `disk'` has `num_bytes` bytes of `from` at `position`, all
  -- other bytes of the file as they were, and all that belongs to no part of the file.
  pub record Written {hdr : FileHeader} {disk : List ℕ} (f : IsFile sector_size total hdr disk)
      (from : List ℕ) (position num_bytes : ℕ) (disk' : List ℕ) : Type 0 where
    pub size : length disk' ≡ length disk
    pub written :
        (k : ℕ) → k < num_bytes → byte_at sector_size hdr disk' (position + k) ≡ get_elem? from k
    pub kept :
        (i : ℕ)
        → i < hdr.num_bytes
        → (i < position) ⊎ (position + num_bytes ≤ i)
        → byte_at sector_size hdr disk' i ≡ byte_at sector_size hdr disk i
    pub others :
        (p : ℕ)
        → ((c : ℕ) → c < hdr.num_sectors → Outside sector_size (f.sector c) p)
        → get_elem? disk' p ≡ get_elem? disk p

  -- A file keeps its parts on a disk of the same size.
  pub IsFile-disk :
      {hdr : FileHeader} {disk : List ℕ} (f : IsFile sector_size total hdr disk) (disk' : List ℕ)
      → length disk' ≡ length disk
      → IsFile sector_size total hdr disk'
  IsFile-disk f disk' same = record {
    some_bytes = f.some_bytes;
    fits = f.fits;
    disk_size = same ∙ f.disk_size;
    sector = f.sector;
    holds = f.holds;
    in_disk = f.in_disk;
    apart = f.apart;
  }

  byte_at-disk :
      {hdr : FileHeader} {disk : List ℕ} (f : IsFile sector_size total hdr disk) (disk' : List ℕ)
      (i : ℕ)
      → length disk' ≡ length disk
      → i < hdr.num_bytes
      → byte_at sector_size hdr disk' i
        ≡ get_elem? disk' (f.sector (i / sector_size) * sector_size + i % sector_size)
  unfolding IsFile-disk
  byte_at-disk f disk' i same h =
      byte_at-sector sector_size total (IsFile-disk f disk' same) i
        ((Nat.div-lt_iff_lt-mul f.some_bytes).1 (omega (arith, f.fits)))

  -- A byte of a part that was written is that of the buffer.
  part_written :
      {hdr : FileHeader} {disk : List ℕ} (f : IsFile sector_size total hdr disk) (first last : ℕ)
      (buf disk' : List ℕ)
      → PartsWritten f first (1 + last - first) 0 buf disk disk'
      → (shift k i : ℕ) → first ≤ i / sector_size
      → i / sector_size ≤ last
      → i < hdr.num_bytes
      → shift + k + first * sector_size ≡ i
      → byte_at sector_size hdr disk' i ≡ get_elem? buf (shift + k)
  part_written f first last buf disk' w shift k i lo hi in_file at =
      let (c, is_part, few, place) =
        part_of sector_size total (λ n. []) first last shift k i lo hi at in
      byte_at-disk f disk' i w.size in_file
      ∙ ap (λ n. get_elem? disk' (f.sector n * sector_size + i % sector_size)) (sym is_part)
      ∙ w.parts c (i % sector_size) (omega arith) (omega (arith, few)) (Nat.mod-lt i f.some_bytes)
      ∙ ap (get_elem? buf) (sym place)

  -- A byte of a part that was not written.
  part_untouched :
      {hdr : FileHeader} {disk : List ℕ} (f : IsFile sector_size total hdr disk) (first n : ℕ)
      (buf disk' : List ℕ)
      → PartsWritten f first n 0 buf disk disk'
      → first + n ≤ hdr.num_sectors
      → (i : ℕ) → i < hdr.num_bytes
      → (i / sector_size < first) ⊎ (first + n ≤ i / sector_size)
      → byte_at sector_size hdr disk' i ≡ byte_at sector_size hdr disk i
  part_untouched {hdr = hdr} {disk = disk} f first n buf disk' w in_sectors i in_file away =
      let e = i / sector_size in
      let part : e < hdr.num_sectors =
        (Nat.div-lt_iff_lt-mul f.some_bytes).1 (omega (arith, f.fits)) in
      byte_at-disk f disk' i w.size in_file
      ∙ w.others (f.sector e * sector_size + i % sector_size) (λ c lo hi.
        other_sector sector_size (f.sector e) (f.sector (first + c)) (i % sector_size)
          (λ same. ground (arith, f.apart e (first + c) part (omega arith) same, away))
          (Nat.mod-lt i f.some_bytes))
      ∙ sym (byte_at-disk f disk i refl in_file)

  module _ (blank : ℕ → List ℕ) where
    -- A byte of the written parts that is not one of the given bytes.
    part_kept :
        {hdr : FileHeader} {disk : List ℕ} (f : IsFile sector_size total hdr disk) (from : List ℕ)
        (first last shift position num_bytes : ℕ) (buf changed disk' : List ℕ)
        → PartsWritten f first (1 + last - first) 0 changed disk disk'
        → Filled sector_size total blank hdr disk position num_bytes first (1 + last - first) buf
        → Copied num_bytes from 0 buf shift changed
        → shift + first * sector_size ≡ position
        → (i : ℕ) → i < hdr.num_bytes
        → first ≤ i / sector_size
        → i / sector_size ≤ last
        → (i < position) ⊎ (position + num_bytes ≤ i)
        → byte_at sector_size hdr disk' i ≡ byte_at sector_size hdr disk i
    part_kept {hdr = hdr} {disk = disk} f from first last shift position num_bytes buf changed disk'
          w b c at i in_file lo hi out =
        let q = i - first * sector_size in
        let begins = Nat.mul-le-mul_right sector_size lo in
        let i_place = Nat.div-mul-le_self i sector_size in
        let i_near = Nat.lt-div-mul-add {a = i} f.some_bytes in
        let there : first * sector_size + q ≡ i = omega (arith, begins, i_place) in
        let in_parts =
          Nat.mul-le-mul_right {m = i / sector_size + 1} {n = last + 1} sector_size (omega arith) in
        let tail : (last + 1) * sector_size
            ≡ first * sector_size + (1 + last - first) * sector_size =
          ap (λ n. n * sector_size) (omega arith)
          ∙ Nat.add-mul first (1 + last - first) sector_size in
        let copied : get_elem? changed q ≡ get_elem? buf q = elim out [
          | inl before ↦ c.below q (omega arith)
          | inr behind ↦ c.above q (omega arith)
        ] in
        part_written f first last changed disk' w q 0 i lo hi in_file (omega (arith, there))
        ∙ ap (get_elem? changed) (omega arith)
        ∙ copied
        ∙ b.kept q (omega (arith, there, i_near, in_parts, tail)) (omega (arith, there)) (elim out [
          | inl before ↦ inl (omega (arith, there))
          | inr behind ↦ inr (omega (arith, there))
        ])
        ∙ ap (byte_at sector_size hdr disk) there

    pub transfer-Written :
        {hdr : FileHeader} {disk : List ℕ} (f : IsFile sector_size total hdr disk) (from : List ℕ)
        (position num_bytes : ℕ)
        → ((m : ℕ) → length (blank m) ≡ m)
        → 0 < num_bytes
        → position + num_bytes ≤ hdr.num_bytes
        → num_bytes ≤ length from
        → (disk' : List ℕ) × (transfer sector_size total blank hdr disk from position num_bytes
            ≡ some disk')
          × Written f from position num_bytes disk'
    unfolding transfer
    transfer-Written {hdr = hdr} {disk = disk} f from position num_bytes sized some_count in_file
          given =
        let first = position / sector_size in
        let last = (position + num_bytes - 1) / sector_size in
        let s = span sector_size position num_bytes f.some_bytes some_count in
        let last_part : last < hdr.num_sectors =
          (Nat.div-lt_iff_lt-mul f.some_bytes).1 (omega (arith, f.fits)) in
        let tail : (last + 1) * sector_size
            ≡ first * sector_size + (1 + last - first) * sector_size =
          ap (λ n. n * sector_size) (omega (arith, s.ordered))
          ∙ Nat.add-mul first (1 + last - first) sector_size in
        let (buf, filled, b) =
          fill_buffer-Filled sector_size total blank f position num_bytes sized some_count
            in_file in
        let shift = position - first * sector_size in
        let (changed, copied, c) =
          bcopy-Copied num_bytes from 0 buf shift (omega arith)
            (omega (arith, b.size, s.starts, s.covers, tail)) in
        let (disk', done, w) =
          write_sectors-PartsWritten f first (1 + last - first) 0 changed disk
            (omega (arith, s.ordered)) (omega (arith, c.size, b.size)) refl in
        (
          disk',
          rw (filled, copied) done,
          record {
            size = w.size;
            written = λ k h.
                part_written f first last changed disk' w shift k (position + k)
                  (div_mono sector_size position (position + k) f.some_bytes (omega arith))
                  (div_mono sector_size (position + k) (position + num_bytes - 1) f.some_bytes
                    (omega arith))
                  (omega arith) (omega (arith, s.starts))
                ∙ c.inside k h
                ∙ ap (get_elem? from) (omega arith);
            kept = λ i h out. elim (Bool-cases (ltb (i / sector_size) first)) [
              | inl early ↦
                  part_untouched f first (1 + last - first) changed disk' w
                    (omega (arith, s.ordered)) i h (inl (ground arith))
              | inr not_early ↦ elim (Bool-cases (ltb last (i / sector_size))) [
                | inl late ↦
                    part_untouched f first (1 + last - first) changed disk' w
                      (omega (arith, s.ordered)) i h (inr (ground (arith, s.ordered)))
                | inr not_late ↦
                    part_kept f from first last shift position num_bytes buf changed disk' w b c
                      (omega (arith, s.starts)) i h (ground arith) (ground arith) out
              ]
            ];
            others = λ x out. w.others x (λ e lo hi. out (first + e) (omega (arith, s.ordered)));
          },
        )
