-- ===== src/Directory/Operations.antt =====
-- Add, Remove, the constructor and `empty` as operations on the finite map of a directory.
use sgptp.Prelude.{
  ℕ, zero, suc, ◌+◌, ◌≡◌, ◌≢◌, ◌↔◌, refl, sym, ap, ◌∙◌, ◌⊎◌, inl, inr, true, false, Option, none,
  some, List, [], ◌∷◌, if◌then◌else◌, arith, Bool-cases, All,
}
use mathlib.Core.Path.{subst}
use sgptp.Directory.{
  DirectoryEntry, ErrorCode, file_name_max_len, strncpy, matches, find_index_from, no_error,
  already_in_directory, inexist_directory_error, no_space_in_directory, find_index, fill_first, add,
  switch_off, remove, new_directory, empty,
}
use sgptp.Directory.Names.{
  same_prefix_refl, same_prefix_comm, same_prefix_congr, same_prefix-strncpy,
}
use sgptp.Directory.Lookup.{same, lookup, IsDirectory, lookup_congr, find_index_from-lookup}

-- In `t'` the name stands for `o`, every other name for what it stands for in `t`.
abbrev pub Rebinds : List DirectoryEntry → List ℕ → Option ℕ → List DirectoryEntry → Type 0
Rebinds t name o t' = (n : List ℕ) → lookup t' n ≡ (if same name n then o else lookup t n)

abbrev pub IsFull : List DirectoryEntry → Type 0
IsFull t = All (λ e. e.in_use ≡ true) t

-- The two results of Add's loop on a directory without the name.
abbrev pub Filled : List DirectoryEntry → List ℕ → ℕ → ErrorCode × List DirectoryEntry → Type 0
Filled t name s (c, t') =
    ((c ≡ no_space_in_directory) × (t' ≡ t) × IsFull t)
    ⊎ ((c ≡ no_error) × Rebinds t name (some s) t' × IsDirectory t')

fill_first_used :
    (e : DirectoryEntry) (t : List DirectoryEntry) (name : List ℕ) (s : ℕ)
    → e.in_use ≡ true
    → fill_first (e ∷ t) name s ≡ ((fill_first t name s).0, e ∷ (fill_first t name s).1)
unfolding fill_first
fill_first_used e t name s used = simp (used)

fill_first_unused :
    (e : DirectoryEntry) (t : List DirectoryEntry) (name : List ℕ) (s : ℕ)
    → e.in_use ≡ false
    → fill_first (e ∷ t) name s
      ≡ (no_error, record { in_use = true; sector = s; name = strncpy file_name_max_len name } ∷ t)
unfolding fill_first
fill_first_unused e t name s unused = simp (unused)

fill_first-Filled :
    (t : List DirectoryEntry) (name : List ℕ) (s : ℕ)
    → IsDirectory t
    → lookup t name ≡ none
    → Filled t name s (fill_first t name s)
unfolding fill_first lookup
fill_first-Filled [] name s d absent = inl (refl, refl, tt)
fill_first-Filled (e ∷ t) name s d absent = elim (Bool-cases e.in_use) [
  | inl used ↦
      let differs : same e.name name ≡ false = ground (arith, used, absent) in
      let absent' : lookup t name ≡ none = ground (arith, used, absent) in
      subst (Filled (e ∷ t) name s) (sym (fill_first_used e t name s used))
        (elim (fill_first-Filled t name s d.1 absent') [
          | inl (c, eq, full) ↦ inl (c, ap (◌∷◌ e) eq, (used, full))
          | inr (c, r, d') ↦ inr (
            c,
            λ n. ground (
              arith,
              r n,
              used,
              differs,
              same_prefix_congr file_name_max_len name n e.name,
              same_prefix_comm file_name_max_len name e.name,
              same_prefix_comm file_name_max_len n e.name,
            ),
            (
              λ u.
                  ground (
                    arith,
                    r e.name,
                    d.0 u,
                    differs,
                    same_prefix_comm file_name_max_len name e.name,
                  ),
              d',
            ),
          )
        ])
  | inr unused ↦
      let absent' : lookup t name ≡ none = ground (arith, unused, absent) in
      subst (Filled (e ∷ t) name s) (sym (fill_first_unused e t name s unused)) (
        inr (
          refl,
          λ n. rw (unused, same_prefix-strncpy file_name_max_len name n) refl,
          (
            λ u.
                lookup_congr t (strncpy file_name_max_len name) name (
                  same_prefix-strncpy file_name_max_len name name
                  ∙ same_prefix_refl file_name_max_len name)
                ∙ absent',
            d.1,
          ),
        ))
]

-- The results of Add: the name is there and nothing changes; or the directory is full and nothing
-- changes; or the name is bound to the sector, every other name as before.
abbrev pub Added : List DirectoryEntry → List ℕ → ℕ → ErrorCode × List DirectoryEntry → Type 0
Added t name s (c, t') =
    ((c ≡ already_in_directory) × (t' ≡ t) × (lookup t name ≢ none))
    ⊎ ((lookup t name ≡ none) × Filled t name s (c, t'))

-- Add on a directory has one of the results of `Added`.
pub add-Added :
    (t : List DirectoryEntry) (name : List ℕ) (s : ℕ)
    → IsDirectory t
    → Added t name s (add t name s)
unfolding add find_index
add-Added t name s d = elim (find_index_from-lookup t 0 name) [
  | inl (r, absent) ↦ rw (add, find_index, r) (inr (absent, fill_first-Filled t name s d absent))
  | inr (k, e, at, got, hit, is) ↦
      rw (add, find_index, at) (inl (refl, refl, λ h. ground (arith, h, is)))
]

-- Switching off the entry at which FindIndex, begun at number `i`, finds the name.
switch_off-Rebinds :
    (t : List DirectoryEntry) (i k : ℕ) (name : List ℕ)
    → IsDirectory t
    → find_index_from t i name ≡ some (i + k)
    → Rebinds t name none (switch_off t k) × IsDirectory (switch_off t k)
unfolding find_index_from switch_off lookup
switch_off-Rebinds [] i k name d at = ground arith
switch_off-Rebinds (e ∷ t) i zero name d at = elim (Bool-cases (matches e name)) [
  | inl hit ↦ (
    λ n. ground (
      arith,
      hit,
      d.0,
      lookup_congr t e.name n,
      same_prefix_congr file_name_max_len e.name name n,
    ),
    (λ u. ground arith, d.1),
  )
  | inr miss ↦ elim (find_index_from-lookup t (i + 1) name) [
    | inl (r, absent) ↦ ground (arith, miss, r, at)
    | inr (k, f, r, got, hit, is) ↦ ground (arith, miss, r, at)
  ]
]
switch_off-Rebinds (e ∷ t) i (suc k) name d at = elim (Bool-cases (matches e name)) [
  | inl hit ↦ ground (arith, hit, at)
  | inr miss ↦
      let further : find_index_from t (i + 1) name ≡ some (i + 1 + k) = ground (arith, miss, at) in
      let (r, d') = switch_off-Rebinds t (i + 1) k name d.1 further in
      (
        λ n. ground (
          arith,
          miss,
          r n,
          same_prefix_congr file_name_max_len name n e.name,
          same_prefix_comm file_name_max_len name e.name,
          same_prefix_comm file_name_max_len n e.name,
        ),
        (λ u. ground (arith, r e.name, d.0 u), d'),
      )
]

-- Remove on a directory: either the name is not there and nothing changes, or afterwards it is
-- not there, and every other name stands for what it stood for.
pub remove-Rebinds :
    (t : List DirectoryEntry) (name : List ℕ)
    → IsDirectory t
    → ((remove t name ≡ (inexist_directory_error, t)) × (lookup t name ≡ none))
      ⊎ ((t' : List DirectoryEntry) × (remove t name ≡ (no_error, t'))
          × (lookup t name ≢ none)
          × Rebinds t name none t'
          × IsDirectory t')
unfolding remove find_index
remove-Rebinds t name d = elim (find_index_from-lookup t 0 name) [
  | inl (r, absent) ↦ inl (rw (remove, find_index, r) refl, absent)
  | inr (k, e, at, got, hit, is) ↦
      let at' : find_index_from t 0 name ≡ some k = at ∙ ap some (omega arith) in
      inr (
        switch_off t k,
        rw (remove, find_index, at') refl,
        λ h. ground (arith, h, is),
        (switch_off-Rebinds t 0 k name d at).0,
        (switch_off-Rebinds t 0 k name d at).1,
      )
]

-- The constructor makes a directory, in which no name stands for anything.
pub new_directory_lem :
    (memory : List DirectoryEntry)
    → IsDirectory (new_directory memory) × ((n : List ℕ) → lookup (new_directory memory) n ≡ none)
unfolding new_directory lookup
new_directory_lem [] = (tt, λ n. refl)
new_directory_lem (e ∷ memory) =
    let (d, absent) = new_directory_lem memory in ((λ u. ground arith, d), absent)

-- `empty` holds exactly of the directories in which no name stands for anything.
pub empty_iff : (t : List DirectoryEntry) → (empty t ≡ true) ↔ ((n : List ℕ) → lookup t n ≡ none)
unfolding empty lookup
empty_iff [] = (λ h n. refl, λ h. refl)
empty_iff (e ∷ t) = elim (Bool-cases e.in_use) [
  | inl used ↦ (
    λ h. ground (arith, h, used),
    λ h. ground (arith, h e.name, used, same_prefix_refl file_name_max_len e.name),
  )
  | inr unused ↦ (
    λ h n. ground (arith, unused, (empty_iff t).0 (ground (arith, h, unused)) n),
    λ h. ground (arith, unused, (empty_iff t).1 (λ n. ground (arith, h n, unused))),
  )
]
