-- ===== src/FileSystem/Paths.antt =====
-- nachos/filesys/filesys.cc: FindDir, against a walk along the elements of the path.
use sgptp.Prelude.{
  ℕ, zero, suc, ◌+◌, ◌≤◌, ◌<◌, ◌≡◌, refl, sym, ap, ◌∙◌, inl, inr, Bool, true, false, Option, none,
  some, List, [], ◌∷◌, length, ◌==◌, if◌then◌else◌, ◌>>=◌, arith, Bool-cases,
}
use mathlib.Core.Path.{fun_ext}
use sgptp.Directory.{DirectoryEntry, new_directory}
use sgptp.FileSystem.{
  Storage, FileSystem, Config, skip_slashes, break_slash, decompname, directory_sector, enter,
  find_dir_from, find_dir,
}

-- The texts between the slashes of a path: the first one, and the others.
pieces : List ℕ → List ℕ × List (List ℕ)
pieces [] = ([], [])
pieces (c ∷ path) =
    let rest = pieces path in if c == b'/' then ([], rest.0 ∷ rest.1) else (c ∷ rest.0, rest.1)

-- The directories of a path, which are the texts that are not empty but the last, and the last.
elements_of : List ℕ → List (List ℕ) → List (List ℕ) × List ℕ
elements_of p [] = ([], p)
elements_of [] (q ∷ qs) = elements_of q qs
elements_of (c ∷ p) (q ∷ qs) = let rest = elements_of q qs in ((c ∷ p) ∷ rest.0, rest.1)

pub elements : List ℕ → List (List ℕ) × List ℕ
unfolding pieces elements_of
elements path = elements_of (pieces path).0 (pieces path).1

-- "/b//f" and "/b/".
elements_runs :
    (elements (b'/' ∷ b'b' ∷ b'/' ∷ b'/' ∷ b'f' ∷ []) ≡ ((b'b' ∷ []) ∷ [], b'f' ∷ []))
    × (elements (b'/' ∷ b'b' ∷ b'/' ∷ []) ≡ ((b'b' ∷ []) ∷ [], []))
unfolding elements
elements_runs = (refl, refl)

skip_slashes-elements : (path : List ℕ) → elements (skip_slashes path) ≡ elements path
unfolding elements pieces elements_of skip_slashes
skip_slashes-elements [] = refl
skip_slashes-elements (c ∷ path) = elim (Bool-cases (c == b'/')) [
  | inl slash ↦ rw slash (skip_slashes-elements path)
  | inr other ↦ ground (arith, other)
]

length-skip_slashes : (path : List ℕ) → length (skip_slashes path) ≤ length path
unfolding skip_slashes
length-skip_slashes [] = omega arith
length-skip_slashes (c ∷ path) = ground (arith, length-skip_slashes path)

-- A path that does not begin with a slash has a first text that is not empty.
break_slash-skip_slashes :
    (path : List ℕ) {c : ℕ} {tail : List ℕ}
    → (break_slash (skip_slashes path)).1 ≡ c ∷ tail
    → (b : ℕ) × (p : List ℕ) × ((break_slash (skip_slashes path)).0 ≡ b ∷ p)
unfolding skip_slashes break_slash
break_slash-skip_slashes [] h = cc
break_slash-skip_slashes (d ∷ path) h = elim (Bool-cases (d == b'/')) [
  | inl slash ↦ rw slash (break_slash-skip_slashes path (rw slash at h))
  | inr other ↦ (d, (break_slash path).0, ground (arith, other))
]

break_slash_last : (path : List ℕ) → (break_slash path).1 ≡ [] → pieces path ≡ (path, [])
unfolding break_slash pieces
break_slash_last [] h = refl
break_slash_last (c ∷ path) h = ground (arith, break_slash_last path, h)

break_slash_more :
    (path : List ℕ) (c : ℕ) (tail : List ℕ)
    → (break_slash path).1 ≡ c ∷ tail
    → (c ≡ b'/')
      × (pieces path ≡ ((break_slash path).0, (pieces tail).0 ∷ (pieces tail).1))
      × (length tail + length (break_slash path).0 + 1 ≡ length path)
unfolding break_slash pieces
break_slash_more [] c tail h = cc
break_slash_more (d ∷ path) c tail h = ground (arith, break_slash_more path c tail, h)

-- One call of decompname: the last element, or the first directory and a shorter path.
abbrev Step : List ℕ → Bool × List ℕ × List ℕ → Type 0
Step path (false, head, tail) = elements path ≡ ([], tail)
Step path (true, head, tail) =
    (elements path ≡ (head ∷ (elements tail).0, (elements tail).1)) × (length tail < length path)

elements_slash : (c : ℕ) (tail : List ℕ) → c ≡ b'/' → elements (c ∷ tail) ≡ elements tail
unfolding elements pieces elements_of
elements_slash c tail h = rw h refl

-- Of a path of which the first text is not empty and a slash follows.
elements_first :
    (path h tail : List ℕ) (b : ℕ) (p : List ℕ)
    → pieces path ≡ (h, (pieces tail).0 ∷ (pieces tail).1)
    → h ≡ b ∷ p
    → elements path ≡ (h ∷ (elements tail).0, (elements tail).1)
unfolding elements elements_of
elements_first path h tail b p parts first = rw (parts, first) refl

decompname-Step : (path : List ℕ) → Step path (decompname path)
unfolding decompname
decompname-Step path = go (break_slash (skip_slashes path)).1 refl
  where
    go :
        (r : List ℕ)
        → (break_slash (skip_slashes path)).1 ≡ r
        → Step path (elim r [
          | [] ↦ (false, [], skip_slashes path)
          | c ∷ tail ↦ (true, (break_slash (skip_slashes path)).0, c ∷ tail)
        ])
    go [] h =
        sym (skip_slashes-elements path)
        ∙ (unfold elements elements_of in
            ap (λ (x : List ℕ × List (List ℕ)). elements_of x.0 x.1)
              (break_slash_last (skip_slashes path) h))
    go (c ∷ tail) h =
        let (slash, parts, long) = break_slash_more (skip_slashes path) c tail h in
        let (b, p, first) = break_slash-skip_slashes path h in
        (
          sym (skip_slashes-elements path)
              ∙ elements_first (skip_slashes path) _ tail b p parts first
              ∙ ap
                  (λ (x : List (List ℕ) × List ℕ). ((break_slash (skip_slashes path)).0 ∷ x.0, x.1))
                  (sym (elements_slash c tail slash)),
          omega (arith, long, length-skip_slashes path, ap length first),
        )

module _ {D : Type 0} (st : Storage D) (cfg : Config) where
  -- The directory at the end of `names`, from the one at `sector`; `last` is what is left.
  pub walk : List (List ℕ) → List ℕ → ℕ → List DirectoryEntry → D → Option (Option (ℕ × List ℕ))
  walk [] last sector directory disk = some (some (sector, last))
  walk (n ∷ names) last sector directory disk = do
    found ← enter st cfg directory n disk
    elim found [
      | none ↦ some none
      | some (sector', directory') ↦ walk names last sector' directory' disk
    ]

  abbrev Agrees : ℕ → D → Type 0
  Agrees fuel disk =
      (sector : ℕ) (directory : List DirectoryEntry) (name : List ℕ)
      → length name < fuel
      → find_dir_from st cfg fuel sector directory name disk
        ≡ walk (elements name).0 (elements name).1 sector directory disk

  -- The rest of a round, once a directory was entered or not.
  rest_of_round :
      (fuel : ℕ) (disk : D) (tail : List ℕ) (found : Option (Option (ℕ × List DirectoryEntry)))
      → Agrees fuel disk
      → length tail < fuel
      → (found >>= λ f. elim f [
        | none ↦ some none
        | some (sector, directory) ↦ find_dir_from st cfg fuel sector directory tail disk
      ])
        ≡ (found >>= λ f. elim f [
          | none ↦ some none
          | some (sector, directory) ↦
              walk (elements tail).0 (elements tail).1 sector directory disk
        ])
  rest_of_round fuel disk tail none ih lt = refl
  rest_of_round fuel disk tail (some none) ih lt = refl
  rest_of_round fuel disk tail (some (some (sector, directory))) ih lt = ih sector directory tail lt

  find_dir_from-walk : (fuel : ℕ) (disk : D) → Agrees fuel disk
  unfolding find_dir_from walk
  find_dir_from-walk zero disk sector directory name h = elim h [ ]
  find_dir_from-walk (suc fuel) disk sector directory name h =
      go (decompname name) (decompname-Step name) (find_dir_from-walk fuel disk)
    where
      go :
          (r : Bool × List ℕ × List ℕ)
          → Step name r
          → Agrees fuel disk
          → elim r.0 [
            | false ↦ some (some (sector, r.2))
            | true ↦
                (enter st cfg directory r.1 disk >>= λ f. elim f [
                  | none ↦ some none
                  | some (sector', directory') ↦
                      find_dir_from st cfg fuel sector' directory' r.2 disk
                ])
          ]
            ≡ walk (elements name).0 (elements name).1 sector directory disk
      go (false, head, tail) s ih = rw s refl
      go (true, head, tail) s ih = rw s.0 (
          rest_of_round fuel disk tail (enter st cfg directory head disk) ih
            (omega (arith, h, s.1)))

  -- FindDir always ends, and is the walk from the root along the directories of the path: the texts
  -- between its slashes that are not empty, but for the last text, which is what it leaves.
  pub find_dir-walk :
      (fs : FileSystem) (name : List ℕ) (disk : D)
      → find_dir st cfg fs name disk ≡ (
          st.fetch_directory fs.directory_file disk (new_directory cfg.table_memory) >>= λ root.
          walk (elements name).0 (elements name).1 directory_sector root disk)
  unfolding find_dir
  find_dir-walk fs name disk =
      ap (◌>>=◌ (st.fetch_directory fs.directory_file disk (new_directory cfg.table_memory))) (
        fun_ext (λ root.
          find_dir_from-walk (suc (length name)) disk directory_sector root name (omega arith)))
