-- ===== src/LinkedList/Examples.antt =====
-- Runs of the list.
use sgptp.Prelude.{◌≡◌, refl, none, List, [], ◌∷◌, arith}
use sgptp.LinkedList.{Element, element, sorted_insert, remove_item}
use sgptp.LinkedList.Sorted.{IsSorted}
use sgptp.LinkedList.Rotation.{remove_item_diverges}

abbrev agenda : List Element
agenda = element 11 100 ∷ element 12 200 ∷ element 13 200 ∷ []

agenda-IsSorted : IsSorted agenda
agenda-IsSorted = omega arith

insert_runs :
    sorted_insert agenda 14 200
    ≡ element 11 100 ∷ element 12 200 ∷ element 13 200 ∷ element 14 200 ∷ []
unfolding sorted_insert
insert_runs = refl

remove_item_diverges_example : remove_item 1000 agenda 99 ≡ none
remove_item_diverges_example = remove_item_diverges 1000 agenda 99 (omega arith) (omega arith)
