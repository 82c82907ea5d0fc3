-- ===== src/FileHeader/Sectors.antt =====
-- Taking sectors from the free map and giving them back (filehdr.cc, Allocate and Deallocate).
use sgptp.Prelude.{
  ℕ, zero, suc, ◌+◌, ◌≤◌, ◌<◌, ◌≡◌, refl, ◌∙◌, inl, inr, true, false, ◌||◌, some, List, [], ◌∷◌,
  length, get_elem?, set, ◌==◌, if◌then◌else◌, arith, Bool-cases, length-set, get_elem?-set_self,
  get_elem?-set_ne,
}
use sgptp.Prelude.{contains, Distinct}
use sgptp.BitMap.{BitMap}
use sgptp.BitMap
use sgptp.BitMap.Words.{bit, IsValid, clear_lem, test_lem}
use sgptp.BitMap.Allocation.{Writes, cleared-Writes, count_clear}
use sgptp.BitMap.Search.{find-count_clear}
use sgptp.FileHeader.{store, take_sectors, release_sectors}

-- The second map is the first with the listed sectors, free till then, taken one by one.
pub data Takes : BitMap → List ℕ → BitMap → Type 0 where
  nothing : (m : BitMap) → Takes m [] m
  one_more :
      {m m₁ m' : BitMap} {s : ℕ} {ss : List ℕ}
      → s < m.num_bits
      → bit m s ≡ false
      → Writes m m₁ s true
      → Takes m₁ ss m'
      → Takes m (s ∷ ss) m'

-- The array has the listed values from place `i` on.
abbrev pub Holds : List ℕ → ℕ → List ℕ → Type 0
Holds array i [] = Unit
Holds array i (s ∷ ss) = (get_elem? array i ≡ some s) × Holds array (i + 1) ss

-- What the loop of `Allocate` and `reAllocate` returns: it took `n` free sectors, wrote their
-- numbers from place `i` on, and touched nothing before.
pub record Taken (n i : ℕ) (array : List ℕ) (m : BitMap) (free : ℕ) : Type 0 where
  pub sectors : List ℕ
  pub array' : List ℕ
  pub map' : BitMap
  pub returned : take_sectors n i array m ≡ some (array', map')
  pub takes : Takes m sectors map'
  pub valid : IsValid map'
  pub size : map'.num_bits ≡ m.num_bits
  pub left : count_clear map'.num_bits map' ≡ free
  pub many : length sectors ≡ n
  pub held : Holds array' i sectors
  pub long : length array' ≡ length array
  pub before : (j : ℕ) → j < i → get_elem? array' j ≡ get_elem? array j

store_lem : (array : List ℕ) (i v : ℕ) → i < length array → store array i v ≡ some (set array i v)
unfolding store
store_lem array i v h = ground arith

pub take_sectors-Taken :
    (n i : ℕ) (array : List ℕ) (m : BitMap) (free : ℕ)
    → IsValid m
    → count_clear m.num_bits m ≡ free + n
    → i + n ≤ length array
    → Taken n i array m free
unfolding take_sectors
take_sectors-Taken zero i array m free v c fit = record {
  sectors = [];
  array' = array;
  map' = m;
  returned = refl;
  takes = nothing m;
  valid = v;
  size = refl;
  left = omega arith;
  many = refl;
  held = tt;
  long = refl;
  before = λ j h. refl;
}
take_sectors-Taken (suc n) i array m free v c fit =
    let (s, found, lt, clr, w, less) = find-count_clear m (free + n) v (omega arith) in
    let rest =
      take_sectors-Taken n (i + 1) (set array i s) (BitMap.marked m s) free w.valid less
        (omega (arith, length-set array i s)) in
    record {
      sectors = s ∷ rest.sectors;
      array' = rest.array';
      map' = rest.map';
      returned = rw (found, store_lem array i s (omega arith)) rest.returned;
      takes = one_more lt clr w rest.takes;
      valid = rest.valid;
      size = rest.size;
      left = rest.left;
      many = omega (arith, rest.many);
      held = (rest.before i (omega arith) ∙ get_elem?-set_self array i s (omega arith), rest.held);
      long = rest.long ∙ length-set array i s;
      before = λ j h. rest.before j (omega arith) ∙ get_elem?-set_ne array i j s (omega arith);
    }

-- Exactly the taken sectors are set on top of what was.
pub Takes-bit :
    {m m' : BitMap} {ss : List ℕ} → Takes m ss m' → (j : ℕ) → bit m' j ≡ (contains ss j || bit m j)
Takes-bit (nothing m) j = refl
Takes-bit (one_more {s = s} {ss = ss} lt clr w t) j = ground (arith, Takes-bit t j, w.bits j)

pub Takes-size : {m m' : BitMap} {ss : List ℕ} → Takes m ss m' → m'.num_bits ≡ m.num_bits
Takes-size (nothing m) = refl
Takes-size (one_more lt clr w t) = Takes-size t ∙ w.size

-- Each of the taken sectors was free.
pub Takes-free :
    {m m' : BitMap} {ss : List ℕ} → Takes m ss m' → (j : ℕ) → contains ss j ≡ true → bit m j ≡ false
Takes-free (nothing m) j h = cc
Takes-free (one_more {s = s} {ss = ss} lt clr w t) j h = elim (Bool-cases (s == j)) [
  | inl same ↦ let e : s ≡ j = ground arith in rw (← e) clr
  | inr other ↦ let later = Takes-free t j (ground arith) in ground (arith, w.bits j)
]

Takes-below :
    {m m' : BitMap} {ss : List ℕ} → Takes m ss m' → (j : ℕ) → contains ss j ≡ true → j < m.num_bits
Takes-below (nothing m) j h = cc
Takes-below (one_more {s = s} {ss = ss} lt clr w t) j h = elim (Bool-cases (s == j)) [
  | inl same ↦ let e : s ≡ j = ground arith in rw (← e) lt
  | inr other ↦ omega (arith, Takes-below t j (ground arith), w.size)
]

-- No sector is taken twice.
pub Takes-Distinct : {m m' : BitMap} {ss : List ℕ} → Takes m ss m' → Distinct ss
Takes-Distinct (nothing m) = tt
Takes-Distinct (one_more {s = s} {ss = ss} lt clr w t) = (fresh, Takes-Distinct t)
  where
    fresh : contains ss s ≡ false
    fresh = elim (Bool-cases (contains ss s)) [
      | inl again ↦ let free = Takes-free t s again in ground (arith, w.bits s)
      | inr new ↦ new
    ]

-- The listed sectors are in use.
abbrev pub InUse : BitMap → List ℕ → Type 0
InUse m ss = (j : ℕ) → contains ss j ≡ true → (bit m j ≡ true) × (j < m.num_bits)

pub Takes-InUse : {m m' : BitMap} {ss : List ℕ} → Takes m ss m' → InUse m' ss
Takes-InUse t j h = (ground (arith, Takes-bit t j), omega (arith, Takes-below t j h, Takes-size t))

-- The second map is the first without the listed sectors.
pub record Released (m m' : BitMap) (ss : List ℕ) : Type 0 where
  pub valid : IsValid m'
  pub size : m'.num_bits ≡ m.num_bits
  pub bits : (j : ℕ) → bit m' j ≡ (if contains ss j then false else bit m j)

pub release_sectors-Released :
    (ss : List ℕ) (i : ℕ) (array : List ℕ) (m : BitMap)
    → IsValid m
    → Holds array i ss
    → Distinct ss
    → InUse m ss
    → (m' : BitMap) × (release_sectors (length ss) i array m ≡ some m') × Released m m' ss
unfolding release_sectors
release_sectors-Released [] i array m v held apart used =
    (m, refl, record { valid = v; size = refl; bits = λ j. refl })
release_sectors-Released (s ∷ ss) i array m v held apart used =
    let here = used s (ground arith) in
    let w = cleared-Writes m s v here.1 in
    let (m', returned, r) =
      release_sectors-Released ss (i + 1) array (BitMap.cleared m s) w.valid held.1 apart.1 (λ j h.
        (
          ground (arith, w.bits j, (used j (ground arith)).0, apart.0),
          (used j (ground arith)).1,
        )) in
    (
      m',
      rw (held.0, test_lem m s here.1, here.0, clear_lem m s here.1) returned,
      record {
        valid = r.valid;
        size = r.size ∙ w.size;
        bits = λ j. ground (arith, r.bits j, w.bits j);
      },
    )
