-- ===== src/Directory/Lookup.antt =====
-- A directory as a finite map from names to sectors, and what FindIndex and Find read in it.
use mathlib.Core.Path.{subst}
use mathlib.Core.Option.{some-injective}
use sgptp.Prelude.{
  ℕ, zero, ◌<◌, sym, suc, ◌+◌, ◌≡◌, refl, ap, ◌∙◌, ◌⊎◌, inl, inr, Bool, true, false, Option, none,
  some, List, [], ◌∷◌, if◌then◌else◌, get_elem?, arith, Bool-cases,
}
use sgptp.Directory.{
  DirectoryEntry, file_name_max_len, same_prefix, matches, find_index_from, find_index, find,
}
use sgptp.Directory.Names.{same_prefix_comm, same_prefix_congr}

abbrev pub same : List ℕ → List ℕ → Bool
same a b = same_prefix file_name_max_len a b

-- The map: the sector that a name stands for.
unfoldable pub lookup : List DirectoryEntry → List ℕ → Option ℕ
lookup [] name = none
lookup (e ∷ table) name =
    let rest = lookup table name in if matches e name then some e.sector else rest

-- No two entries in use have the same name.
abbrev pub IsDirectory : List DirectoryEntry → Type 0
IsDirectory [] = Unit
IsDirectory (e ∷ table) = (e.in_use ≡ true → lookup table e.name ≡ none) × IsDirectory table

pub lookup_congr :
    (table : List DirectoryEntry) (a b : List ℕ) → same a b ≡ true → lookup table a ≡ lookup table b
unfolding lookup
lookup_congr [] a b h = refl
lookup_congr (e ∷ table) a b h = ground (
  arith,
  lookup_congr table a b h,
  same_prefix_congr file_name_max_len a b e.name h,
  same_prefix_comm file_name_max_len a e.name,
  same_prefix_comm file_name_max_len b e.name,
)

-- Where FindIndex, begun at number `i`, finds a name, if it does.
pub find_index_from-lookup :
    (table : List DirectoryEntry) (i : ℕ) (name : List ℕ)
    → ((find_index_from table i name ≡ none) × (lookup table name ≡ none))
      ⊎ ((k : ℕ) × (e : DirectoryEntry) × (find_index_from table i name ≡ some (i + k))
          × (get_elem? table k ≡ some e)
          × (matches e name ≡ true)
          × (lookup table name ≡ some e.sector))
unfolding find_index_from lookup
find_index_from-lookup [] i name = inl (refl, refl)
find_index_from-lookup (e ∷ table) i name = elim (Bool-cases (matches e name)) [
  | inl hit ↦ rw hit (inr (0, e, ap some (omega arith), refl, hit, refl))
  | inr miss ↦ rw miss (elim (find_index_from-lookup table (i + 1) name) [
    | inl absent ↦ inl absent
    | inr (k, f, at, got, hit, is) ↦ inr (suc k, f, at ∙ ap some (omega arith), got, hit, is)
  ])
]

-- The first n characters.
unfoldable pub first_chars : ℕ → List ℕ → List ℕ
first_chars zero a = []
first_chars (suc n) [] = []
first_chars (suc n) (c ∷ a) = c ∷ first_chars n a

same_prefix-first_chars :
    (n : ℕ) (a b : List ℕ) → same_prefix n a b ≡ true → first_chars n a ≡ first_chars n b
unfolding same_prefix first_chars
same_prefix-first_chars zero a b h = refl
same_prefix-first_chars (suc n) [] [] h = refl
same_prefix-first_chars (suc n) [] (d ∷ b) h = cc
same_prefix-first_chars (suc n) (c ∷ a) [] h = cc
same_prefix-first_chars (suc n) (c ∷ a) (d ∷ b) h = ground (arith, same_prefix-first_chars n a b, h)

first_chars-same_prefix :
    (n : ℕ) (a b : List ℕ) → first_chars n a ≡ first_chars n b → same_prefix n a b ≡ true
unfolding same_prefix first_chars
first_chars-same_prefix zero a b h = refl
first_chars-same_prefix (suc n) [] [] h = refl
first_chars-same_prefix (suc n) [] (d ∷ b) h = cc
first_chars-same_prefix (suc n) (c ∷ a) [] h = cc
first_chars-same_prefix (suc n) (c ∷ a) (d ∷ b) h = ground (arith, first_chars-same_prefix n a b, h)

-- The entry is in use, and its name and this one have the same first FILENAMEMAXLEN characters.
abbrev pub Stands : DirectoryEntry → List ℕ → Type 0
Stands e name =
    (e.in_use ≡ true) × (first_chars file_name_max_len e.name ≡ first_chars file_name_max_len name)

-- The entry with number k stands for the name, and none before it does.
pub record IsFirst (table : List DirectoryEntry) (name : List ℕ) (k : ℕ) (e : DirectoryEntry)
    : Type 0 where
  pub here : get_elem? table k ≡ some e
  pub stands : Stands e name
  pub before : (j : ℕ) (f : DirectoryEntry) → j < k → get_elem? table j ≡ some f → ¬ Stands f name

-- No entry stands for the name.
abbrev pub IsAbsent : List DirectoryEntry → List ℕ → Type 0
IsAbsent table name = (j : ℕ) (f : DirectoryEntry) → get_elem? table j ≡ some f → ¬ Stands f name

matches-Stands : (e : DirectoryEntry) (name : List ℕ) → matches e name ≡ true → Stands e name
matches-Stands e name h =
    (ground (arith, h), same_prefix-first_chars file_name_max_len e.name name (ground (arith, h)))

Stands-matches : (e : DirectoryEntry) (name : List ℕ) → Stands e name → matches e name ≡ true
Stands-matches e name (used, same_name) =
    ground (arith, used, first_chars-same_prefix file_name_max_len e.name name same_name)

missed : (e : DirectoryEntry) (name : List ℕ) → matches e name ≡ false → ¬ Stands e name
missed e name miss stands = ground (arith, miss, Stands-matches e name stands)

find_index_from-First :
    (table : List DirectoryEntry) (i : ℕ) (name : List ℕ)
    → ((find_index_from table i name ≡ none) × IsAbsent table name)
      ⊎ ((k : ℕ) × (e : DirectoryEntry) × (find_index_from table i name ≡ some (i + k))
          × IsFirst table name k e)
unfolding find_index_from
find_index_from-First [] i name = inl (refl, λ j f h. absurd (ground (arith, h)))
find_index_from-First (e ∷ table) i name = elim (Bool-cases (matches e name)) [
  | inl hit ↦ inr (
    0,
    e,
    rw hit (ap some (omega arith)),
    record {
      here = refl;
      stands = matches-Stands e name hit;
      before = λ j f less h. absurd (omega arith);
    },
  )
  | inr miss ↦ elim (find_index_from-First table (i + 1) name) [
    | inl (r, absent) ↦ inl (rw miss r, behind e table name (missed e name miss) absent)
    | inr (k, f, r, first) ↦ inr (
      suc k,
      f,
      rw miss (r ∙ ap some (omega arith)),
      record {
        here = first.here;
        stands = first.stands;
        before = λ j g.
            elim j as (λ j. j < suc k → get_elem? (e ∷ table) j ≡ some g → ¬ Stands g name) [
              | zero ↦ λ less h stands.
                  missed e name miss
                    (subst (λ x. Stands x name) (some-injective _ _ (sym h)) stands)
              | suc j ↦ λ less h. first.before j g (omega arith) h
            ];
      },
    )
  ]
]
  where
    behind :
        (e : DirectoryEntry) (table : List DirectoryEntry) (name : List ℕ)
        → ¬ Stands e name
        → IsAbsent table name
        → IsAbsent (e ∷ table) name
    behind e table name no_entry absent zero f h stands =
        no_entry (subst (λ x. Stands x name) (some-injective _ _ (sym h)) stands)
    behind e table name no_entry absent (suc j) f h stands = absent j f h stands

-- Find returns the sector of the first entry that is in use and has the same first FILENAMEMAXLEN
-- characters as the name, and -1 exactly if no entry in use has them.
pub find-First :
    (table : List DirectoryEntry) (name : List ℕ)
    → ((k : ℕ) × (e : DirectoryEntry) × (find table name ≡ some e.sector) × IsFirst table name k e)
      ⊎ ((find table name ≡ none) × IsAbsent table name)
unfolding find find_index
find-First table name = elim (find_index_from-First table 0 name) [
  | inl (r, absent) ↦ inr (rw r refl, absent)
  | inr (k, e, at, first) ↦
      let at' : find_index_from table 0 name ≡ some k = at ∙ ap some (omega arith) in
      inl (k, e, rw (at', first.here) refl, first)
]
