-- ===== src/LinkedList/Rotation.antt =====
-- RemoveItem, which searches by moving elements from the front to the back.
use mathlib.Core.List.{append-nil, append_assoc}
use sgptp.Prelude.{
  ℕ, zero, suc, ◌<◌, ◌≡◌, ◌≢◌, refl, sym, ◌∙◌, none, some, List, [], ◌∷◌, ◌++◌, map, length, All,
  arith, ap, ==_iff, ne→==, All-append,
}
use sgptp.LinkedList.{Element, element, null, append, remove_item}

-- What Append makes of an element that Remove returned: its key is lost.
abbrev pub unkeyed : Element → Element
unkeyed e = element e.item 0

-- If the list holds the item, RemoveItem ends after as many rounds as there are elements up to it,
-- and what was before it stands behind what was after it, with its keys reset to 0.
pub remove_item_rotates :
    (before after : List Element) (e : Element) (item fuel : ℕ)
    → All (λ f. f.item ≢ item) before
    → e.item ≡ item
    → length before < fuel
    → remove_item fuel (before ++ e ∷ after) item ≡ some (after ++ map unkeyed before)
unfolding remove_item
remove_item_rotates before after e item zero h eq enough = elim enough [ ]
remove_item_rotates [] after e item (suc fuel) h eq enough =
    rw ((==_iff e.item item).1 eq, append-nil)
remove_item_rotates (f ∷ before) after e item (suc fuel) h eq enough =
    rw (ne→== f.item item h.0, moved)
      (remove_item_rotates before (after ++ unkeyed f ∷ []) e item fuel h.1 eq (omega arith)
        ∙ ap some (append_assoc after (unkeyed f ∷ []) (map unkeyed before)))
  where
    moved : append (before ++ e ∷ after) f.item ≡ before ++ e ∷ (after ++ unkeyed f ∷ [])
    moved = append_assoc before (e ∷ after) (unkeyed f ∷ [])

-- The list has no element with the item.
abbrev pub Lacks : ℕ → List Element → Type 0
Lacks item l = All (λ f. f.item ≢ item) l

-- If the list does not hold the item, which is not NULL, RemoveItem never ends: no fuel is enough.
pub remove_item_diverges :
    (fuel : ℕ) (l : List Element) (item : ℕ)
    → item ≢ null
    → Lacks item l
    → remove_item fuel l item ≡ none
unfolding remove_item
remove_item_diverges zero l item h a = refl
remove_item_diverges (suc fuel) [] item h a =
    rw (ne→== null item (λ e. h (sym e)))
      (remove_item_diverges fuel (element null 0 ∷ []) item h ((λ e. h (sym e)), tt))
remove_item_diverges (suc fuel) (e ∷ l) item h a = rw (ne→== e.item item a.0) (
    remove_item_diverges fuel (l ++ unkeyed e ∷ []) item h
      (All-append (λ f. f.item ≢ item) l (unkeyed e ∷ []) a.1 (a.0, tt)))
