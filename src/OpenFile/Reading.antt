-- ===== src/OpenFile/Reading.antt =====
-- nachos/filesys/openfile.cc: ReadAt reads the bytes of the file.
use native.Mathlib.Nat as Nat
use sgptp.Prelude.{
  ℕ, zero, suc, ◌+◌, ◌-◌, ◌*◌, ◌/◌, ◌%◌, ◌≤◌, ◌<◌, ◌≡◌, refl, sym, ap, ◌∙◌, inl, inr, Option, some,
  List, length, get_elem?, ltb, leb, ◌==◌, ◌||◌, if◌then◌else◌, ◌>>=◌, arith, lt→ltb, if_true,
  if_false, Bool-cases,
}
use sgptp.FileHeader.{FileHeader, byte_to_sector}
use sgptp.OpenFile.{bcopy, read_sector, read_sectors, read_at}
use sgptp.OpenFile.Copies.{bcopy-Copied}

-- The byte at place i of a file.
abbrev pub byte_at : ℕ → FileHeader → List ℕ → ℕ → Option ℕ
byte_at sector_size hdr disk i = get_elem? hdr.data_sectors (i / sector_size) >>= λ s.
    get_elem? disk (s * sector_size + i % sector_size)

-- A file on a disk of `total` sectors: it has a sector of its own for each of its parts.
pub record IsFile (sector_size total : ℕ) (hdr : FileHeader) (disk : List ℕ) : Type 0 where
  pub some_bytes : 0 < sector_size
  pub fits : hdr.num_bytes ≤ hdr.num_sectors * sector_size
  pub disk_size : length disk ≡ total * sector_size
  pub sector : ℕ → ℕ
  pub holds : (c : ℕ) → c < hdr.num_sectors → get_elem? hdr.data_sectors c ≡ some (sector c)
  pub in_disk : (c : ℕ) → c < hdr.num_sectors → sector c < total
  pub apart : (c d : ℕ) → c < hdr.num_sectors → d < hdr.num_sectors → sector c ≡ sector d → c ≡ d

module _ (sector_size total : ℕ) where
  -- The byte k of part c.
  pub byte_at-part :
      {hdr : FileHeader} {disk : List ℕ} (f : IsFile sector_size total hdr disk) (c k : ℕ)
      → c < hdr.num_sectors
      → k < sector_size
      → byte_at sector_size hdr disk (c * sector_size + k)
        ≡ get_elem? disk (f.sector c * sector_size + k)
  byte_at-part f c k in_file in_part =
      let quotient : (c * sector_size + k) / sector_size ≡ c =
        Nat.mul-add-div_right f.some_bytes c k ∙ omega (arith, Nat.div-eq_of_lt in_part) in
      let rest : (c * sector_size + k) % sector_size ≡ k =
        Nat.mul-add-mod_self_right c sector_size k ∙ Nat.mod-eq_of_lt in_part in
      rw (quotient, rest, f.holds c in_file) refl

  -- Parts of a file lie in the disk.
  pub part_in_disk :
      {hdr : FileHeader} {disk : List ℕ} (f : IsFile sector_size total hdr disk) (c : ℕ)
      → c < hdr.num_sectors
      → f.sector c * sector_size + sector_size ≤ length disk
  part_in_disk f c h = omega (
    arith,
    f.disk_size,
    Nat.mul-le-mul_right {m = suc (f.sector c)} {n = total} sector_size (f.in_disk c h),
  )

  pub byte_at-sector :
      {hdr : FileHeader} {disk : List ℕ} (f : IsFile sector_size total hdr disk) (x : ℕ)
      → x / sector_size < hdr.num_sectors
      → byte_at sector_size hdr disk x
        ≡ get_elem? disk (f.sector (x / sector_size) * sector_size + x % sector_size)
  byte_at-sector f x h = rw (f.holds (x / sector_size) h) refl

  pub byte_to_sector-part :
      {hdr : FileHeader} {disk : List ℕ} (f : IsFile sector_size total hdr disk) (c : ℕ)
      → c < hdr.num_sectors
      → byte_to_sector sector_size hdr (c * sector_size) ≡ some (f.sector c)
  unfolding byte_to_sector
  byte_to_sector-part f c h = rw (Nat.mul-div_cancel c f.some_bytes) (f.holds c h)

  -- What the loop of ReadAt has read: parts first + d to first + d + n, each at its place.
  pub record PartsRead {hdr : FileHeader} {disk : List ℕ} (f : IsFile sector_size total hdr disk)
      (first n d : ℕ) (buf buf' : List ℕ) : Type 0 where
    pub size : length buf' ≡ length buf
    pub before : (p : ℕ) → p < d * sector_size → get_elem? buf' p ≡ get_elem? buf p
    pub parts :
        (c k : ℕ)
        → d ≤ c
        → c < d + n
        → k < sector_size
        → get_elem? buf' (c * sector_size + k)
          ≡ get_elem? disk (f.sector (first + c) * sector_size + k)

  read_sectors-PartsRead :
      {hdr : FileHeader} {disk : List ℕ} (f : IsFile sector_size total hdr disk) (first n d : ℕ)
      (buf : List ℕ)
      → first + (d + n) ≤ hdr.num_sectors
      → (d + n) * sector_size ≤ length buf
      → (buf' : List ℕ) × (read_sectors sector_size total hdr disk first n d buf ≡ some buf')
        × PartsRead f first n d buf buf'
  unfolding read_sectors read_sector
  read_sectors-PartsRead f first zero d buf p q = (
    buf,
    refl,
    record { size = refl; before = λ x h. refl; parts = λ c k h h' h''. absurd (omega arith) },
  )
  read_sectors-PartsRead {disk = disk} f first (suc n) d buf p q =
      let room : (d + 1) * sector_size ≤ length buf =
        omega (arith, Nat.mul-le-mul_right {m = d + 1} {n = d + suc n} sector_size (omega arith)) in
      let (buf1, copied, c1) =
        bcopy-Copied sector_size disk (f.sector (first + d) * sector_size) buf (d * sector_size)
          (part_in_disk f (first + d) (omega arith)) (omega arith) in
      let (buf', rest, r) =
        read_sectors-PartsRead f first n (d + 1) buf1 (omega arith) (omega (arith, c1.size)) in
      (
        buf',
        rw
            (
              byte_to_sector-part f (first + d) (omega arith),
              lt→ltb _ _ (f.in_disk (first + d) (omega arith)),
              copied,
            )
            rest,
        record {
          size = r.size ∙ c1.size;
          before = λ x h. r.before x (omega arith) ∙ c1.below x h;
          parts = λ c k lo hi small. elim (Bool-cases (ltb d c)) [
            | inl later ↦ r.parts c k (ground arith) (omega arith) small
            | inr first_one ↦
                let same : c ≡ d = ground arith in
                rw same (r.before (d * sector_size + k) (omega arith) ∙ c1.inside k small)
          ];
        },
      )

pub div_mono : (sector_size a b : ℕ) → 0 < sector_size → a ≤ b → a / sector_size ≤ b / sector_size
div_mono sector_size a b p h =
    (Nat.le-div_iff_mul-le p).1 (omega (arith, Nat.div-mul-le_self a sector_size))

-- The parts first to last of a file that the bytes from `position` on are in.
pub record Span (sector_size position count : ℕ) : Type 0 where
  pub ordered : position / sector_size ≤ (position + count - 1) / sector_size
  pub starts : position / sector_size * sector_size ≤ position
  pub near : position < position / sector_size * sector_size + sector_size
  pub covers : position + count ≤ ((position + count - 1) / sector_size + 1) * sector_size

pub span :
    (sector_size position count : ℕ) → 0 < sector_size → 0 < count → Span sector_size position count
span sector_size position count p q =
    let end = position + count - 1 in
    let near_end = Nat.lt-div-mul-add {a = end} p in
    let near = Nat.lt-div-mul-add {a = position} p in
    let starts = Nat.div-mul-le_self position sector_size in
    record {
      ordered = elim (Bool-cases (ltb (end / sector_size) (position / sector_size))) [
        | inl wrong ↦
            let less : suc (end / sector_size) ≤ position / sector_size = ground arith in
            absurd (omega (arith, Nat.mul-le-mul_right sector_size less, near_end, starts))
        | inr fine ↦ ground arith
      ];
      starts = starts;
      near = omega (arith, near);
      covers = omega (arith, near_end);
    }

-- `into'` is `into` with `count` bytes of the file, from `position` on, at its place.
pub record FileRead (sector_size : ℕ) (hdr : FileHeader) (disk : List ℕ) (count position place : ℕ)
    (into into' : List ℕ) : Type 0 where
  pub size : length into' ≡ length into
  pub inside :
      (k : ℕ)
      → k < count
      → get_elem? into' (place + k) ≡ byte_at sector_size hdr disk (position + k)
  pub below : (k : ℕ) → k < place → get_elem? into' k ≡ get_elem? into k
  pub above : (k : ℕ) → place + count ≤ k → get_elem? into' k ≡ get_elem? into k

module _ (sector_size total : ℕ) (blank : ℕ → List ℕ) where
  -- The part that holds byte x, counted from the first part, and the place of x in the parts.
  pub part_of :
      (first last shift k x : ℕ)
      → first ≤ x / sector_size
      → x / sector_size ≤ last
      → shift + k + first * sector_size ≡ x
      → (d : ℕ) × (first + d ≡ x / sector_size)
        × (d < 1 + last - first)
        × (shift + k ≡ d * sector_size + x % sector_size)
  part_of first last shift k x lo hi at =
      let d = x / sector_size - first in
      let is_part : first + d ≡ x / sector_size = omega arith in
      let whole = Nat.add-mul first d sector_size in
      let product : (first + d) * sector_size ≡ x / sector_size * sector_size =
        ap (λ n. n * sector_size) is_part in
      (d, is_part, omega arith, omega (arith, Nat.div-add-mod' x sector_size, whole, product))

  -- Reading the parts that hold the bytes, and copying these.
  read_parts :
      {hdr : FileHeader} {disk : List ℕ} (f : IsFile sector_size total hdr disk) (into : List ℕ)
      (place count position : ℕ)
      → ((n : ℕ) → length (blank n) ≡ n)
      → 0 < count
      → position + count ≤ hdr.num_bytes
      → place + count ≤ length into
      → (let first = position / sector_size in
          let sectors = 1 + (position + count - 1) / sector_size - first in
          (buf : List ℕ) × (into' : List ℕ) × (read_sectors sector_size total hdr disk first sectors
              0
              (blank (sectors * sector_size))
            ≡ some buf)
          × (bcopy count buf (position - first * sector_size) into place ≡ some into')
          × FileRead sector_size hdr disk count position place into into')
  read_parts {hdr = hdr} {disk = disk} f into place count position sized some_count in_file room =
      let first = position / sector_size in
      let last = (position + count - 1) / sector_size in
      let sectors = 1 + last - first in
      let s = span sector_size position count f.some_bytes some_count in
      let last_part : last < hdr.num_sectors =
        (Nat.div-lt_iff_lt-mul f.some_bytes).1 (omega (arith, f.fits)) in
      let tail : (last + 1) * sector_size ≡ first * sector_size + sectors * sector_size =
        ap (λ n. n * sector_size) (omega (arith, s.ordered))
        ∙ Nat.add-mul first sectors sector_size in
      let (buf, read, r) =
        read_sectors-PartsRead sector_size total f first sectors 0 (blank (sectors * sector_size))
          (omega (arith, s.ordered)) (omega (arith, sized (sectors * sector_size))) in
      let (into', copied, c) =
        bcopy-Copied count buf (position - first * sector_size) into place
          (omega (arith, r.size, sized (sectors * sector_size), s.starts, s.covers, tail)) room in
      (
        buf,
        into',
        read,
        copied,
        record {
          size = c.size;
          below = c.below;
          above = c.above;
          inside = λ k h.
              let x = position + k in
              let (d, is_part, few, at) =
                part_of first last (position - first * sector_size) k x
                  (div_mono sector_size position x f.some_bytes (omega arith))
                  (div_mono sector_size x (position + count - 1) f.some_bytes (omega arith))
                  (omega (arith, s.starts)) in
              c.inside k h
              ∙ ap (get_elem? buf) at
              ∙ r.parts d (x % sector_size) (omega arith) (omega (arith, few))
                  (Nat.mod-lt x f.some_bytes)
              ∙ ap (λ n. get_elem? disk (f.sector n * sector_size + x % sector_size)) is_part
              ∙ sym (
                  byte_at-sector sector_size total f x (
                    omega (
                      arith,
                      last_part,
                      div_mono sector_size x (position + count - 1) f.some_bytes (omega arith),
                    )));
        },
      )

  -- The bytes that ReadAt returns: up to `num_bytes`, but none behind the end of the file.
  abbrev pub readable : FileHeader → ℕ → ℕ → ℕ
  readable hdr num_bytes position =
      if ltb hdr.num_bytes (position + num_bytes) then hdr.num_bytes - position else num_bytes

  -- On a file whose parts each have a sector of the disk, ReadAt never aborts. It puts the bytes of the
  -- file from the position on at their place, as many as asked for, but none behind the end of the
  -- file, and returns their number; the rest of the array stays as it was.
  pub read_at-Read :
      {hdr : FileHeader} {disk : List ℕ} (f : IsFile sector_size total hdr disk) (into : List ℕ)
      (place num_bytes position : ℕ)
      → ((n : ℕ) → length (blank n) ≡ n)
      → place + readable hdr num_bytes position ≤ length into
      → (into' : List ℕ) × (read_at sector_size total blank hdr disk into place num_bytes position
          ≡ some (readable hdr num_bytes position, into'))
        × FileRead sector_size hdr disk (readable hdr num_bytes position) position place into into'
  unfolding read_at
  read_at-Read {hdr = hdr} f into place num_bytes position sized room =
      let count = readable hdr num_bytes position in
      elim (Bool-cases ((num_bytes == 0) || leb hdr.num_bytes position)) [
        | inl nothing ↦
            let zero_bytes : count ≡ 0 = ground arith in
            (
              into,
              if_true _ _ nothing ∙ ap (λ n. some (n, into)) (sym zero_bytes),
              record {
                size = refl;
                inside = λ k h. absurd (omega (arith, zero_bytes));
                below = λ k h. refl;
                above = λ k h. refl;
              },
            )
        | inr some_bytes ↦
            let (buf, into', read, copied, r) =
              read_parts f into place count position sized (ground arith) (ground arith) room in
            (into', if_false _ _ some_bytes ∙ rw (read, copied) refl, r)
      ]
