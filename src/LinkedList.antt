-- ===== src/LinkedList.antt =====
-- nachos/utility/list.h, the template List: here the chain of elements from `first` along `next`,
-- the last one being `last`. An item is a pointer, a number with NULL as 0; a key is a number.
-- `ASSERT(first != first->next)` holds of every chain.
pub mod Sorted
pub mod Rotation
mod Examples
use sgptp.Prelude.{
  ℕ, zero, suc, ◌+◌, Bool, true, false, Option, none, some, List, [], ◌∷◌, ◌++◌, ltb, ◌==◌,
  if◌then◌else◌,
}

pub record Element : Type 0 where
  pub key : ℕ
  pub item : ℕ

abbrev pub null : ℕ
null = 0

-- `new ListElement(item, key)`.
abbrev pub element : ℕ → ℕ → Element
element item key = record { key = key; item = item }

unfoldable pub prepend : List Element → ℕ → List Element
prepend l item = element item 0 ∷ l

unfoldable pub append : List Element → ℕ → List Element
append l item = l ++ element item 0 ∷ []

unfoldable pub is_empty : List Element → Bool
is_empty [] = true
is_empty (e ∷ l) = false

-- The removed item with its key, `none` for NULL where the list is empty.
unfoldable pub sorted_remove : List Element → Option Element × List Element
sorted_remove [] = (none, [])
sorted_remove (e ∷ l) = (some e, l)

-- `Remove`, which is SortedRemove(NULL): the item alone.
unfoldable pub remove : List Element → ℕ × List Element
remove [] = (null, [])
remove (e ∷ l) = (e.item, l)

unfoldable pub sorted_insert : List Element → ℕ → ℕ → List Element
sorted_insert [] item sort_key = element item sort_key ∷ []
sorted_insert (e ∷ l) item sort_key =
    if ltb sort_key e.key then element item sort_key ∷ e ∷ l else e ∷ sorted_insert l item sort_key

-- `while ((element != last) && (element->item != item)) element = element->next`.
unfoldable pub search_item : List Element → ℕ → Bool
search_item [] item = false
search_item (e ∷ []) item = e.item == item
search_item (e ∷ f ∷ l) item =
    let rest = search_item (f ∷ l) item in if e.item == item then true else rest

-- `while ((temp = Remove()) != item) Append(temp)`, on fuel: `none` means that it ran out.
unfoldable pub remove_item : ℕ → List Element → ℕ → Option (List Element)
unfolding remove append
remove_item zero l item = none
remove_item (suc fuel) l item =
    let (temp, rest) = remove l in
    let again = remove_item fuel (append rest temp) item in
    if temp == item then some rest else again
