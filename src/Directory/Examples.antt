-- ===== src/Directory/Examples.antt =====
-- A directory of three entries, two of them in use.
use sgptp.Prelude.{true, false, none, some, ◌∷◌, [], ◌≡◌, ◌≢◌, refl, List, ℕ, ◌⊎◌}
use sgptp.Directory.{
  DirectoryEntry, no_error, inexist_directory_error, find, add, remove, same_prefix, new_directory,
}
use sgptp.Directory.Lookup.{lookup, IsDirectory, IsFirst, IsAbsent, find-First}
use sgptp.Directory.Operations.{Added, Rebinds, add-Added, remove-Rebinds, new_directory_lem}

-- "a", "ab" and "b".
abbrev a_name : List ℕ
a_name = 97 ∷ []

abbrev ab_name : List ℕ
ab_name = 97 ∷ 98 ∷ []

abbrev b_name : List ℕ
b_name = 98 ∷ []

abbrev home : List DirectoryEntry
home =
    record { in_use = true; sector = 40; name = a_name }
    ∷ record { in_use = false; sector = 7; name = b_name }
    ∷ record { in_use = true; sector = 41; name = ab_name }
    ∷ []

home-IsDirectory : IsDirectory home
unfolding lookup same_prefix
home-IsDirectory = (λ u. refl, (λ u. refl, (λ u. refl, tt)))

add_test : add home b_name 50 ≡ (
  no_error,
  record { in_use = true; sector = 40; name = a_name }
      ∷ record { in_use = true; sector = 50; name = b_name }
      ∷ record { in_use = true; sector = 41; name = ab_name }
      ∷ [],
)
unfolding add same_prefix
add_test = refl

find-First_example :
    ((k : ℕ) × (e : DirectoryEntry) × (find home ab_name ≡ some e.sector)
      × IsFirst home ab_name k e)
    ⊎ ((find home ab_name ≡ none) × IsAbsent home ab_name)
find-First_example = find-First home ab_name

add-Added_example : Added home b_name 50 (add home b_name 50)
add-Added_example = add-Added home b_name 50 home-IsDirectory

remove-Rebinds_example :
    ((remove home a_name ≡ (inexist_directory_error, home)) × (lookup home a_name ≡ none))
    ⊎ ((t' : List DirectoryEntry) × (remove home a_name ≡ (no_error, t'))
        × (lookup home a_name ≢ none)
        × Rebinds home a_name none t'
        × IsDirectory t')
remove-Rebinds_example = remove-Rebinds home a_name home-IsDirectory

new_directory_lem_example :
    IsDirectory (new_directory home) × ((n : List ℕ) → lookup (new_directory home) n ≡ none)
new_directory_lem_example = new_directory_lem home
