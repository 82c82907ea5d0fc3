-- ===== src/LinkedList/Sorted.antt =====
-- SortedInsert and SortedRemove as a priority queue that is first-in first-out within a key.
use sgptp.Prelude.{
  ℕ, ◌≤◌, ◌<◌, ◌≡◌, refl, ◌⊎◌, inl, inr, none, some, List, [], ◌∷◌, ◌++◌, All, ltb, arith,
  Bool-cases, ap, ltb→lt,
}
use sgptp.LinkedList.{Element, element, sorted_insert, sorted_remove}

-- Keys do not fall along the list.
abbrev pub IsSorted : List Element → Type 0
IsSorted [] = Unit
IsSorted (e ∷ l) = All (λ f. e.key ≤ f.key) l × IsSorted l

-- Where a new element of key `k` went: behind all keys up to `k`, before all greater ones.
pub record Inserted (l : List Element) (item k : ℕ) (r : List Element) : Type 0 where
  pub before : List Element
  pub after : List Element
  pub old : l ≡ before ++ after
  pub new : r ≡ before ++ element item k ∷ after
  pub up_to : All (λ e. e.key ≤ k) before
  pub beyond : All (λ e. k < e.key) after

pub All-lt_of_le :
    (k n : ℕ) (l : List Element) → k < n → All (λ f. n ≤ f.key) l → All (λ e. k < e.key) l
All-lt_of_le k n [] h a = tt
All-lt_of_le k n (e ∷ l) h a = (omega arith, All-lt_of_le k n l h a.1)

All-le_trans :
    (k n : ℕ) (l : List Element) → k ≤ n → All (λ f. n ≤ f.key) l → All (λ f. k ≤ f.key) l
All-le_trans k n [] h a = tt
All-le_trans k n (e ∷ l) h a = (omega arith, All-le_trans k n l h a.1)

-- In a sorted list SortedInsert puts the new element behind the elements of the same or a smaller
-- key and before those of a greater key, all else staying in its order.
pub sorted_insert-Inserted :
    (l : List Element) (item k : ℕ) → IsSorted l → Inserted l item k (sorted_insert l item k)
unfolding sorted_insert
sorted_insert-Inserted [] item k s = record {
  before = [];
  after = [];
  old = refl;
  new = refl;
  up_to = tt;
  beyond = tt;
}
sorted_insert-Inserted (e ∷ l) item k s = elim (Bool-cases (ltb k e.key)) [
  | inl front ↦ rw front (record {
    before = [];
    after = e ∷ l;
    old = refl;
    new = refl;
    up_to = tt;
    beyond = (ltb→lt k e.key front, All-lt_of_le k e.key l (ltb→lt k e.key front) s.0);
  })
  | inr later ↦
      let rest = sorted_insert-Inserted l item k s.1 in
      rw later (record {
        before = e ∷ rest.before;
        after = rest.after;
        old = ap (◌∷◌ e) rest.old;
        new = ap (◌∷◌ e) rest.new;
        up_to = (ground arith, rest.up_to);
        beyond = rest.beyond;
      })
]

All-insert :
    (k : ℕ) (l : List Element) (item n : ℕ)
    → k ≤ n
    → All (λ f. k ≤ f.key) l
    → All (λ f. k ≤ f.key) (sorted_insert l item n)
unfolding sorted_insert
All-insert k [] item n h a = (h, tt)
All-insert k (e ∷ l) item n h a = ground (arith, All-insert k l item n h a.1)

-- SortedInsert keeps a sorted list sorted.
pub sorted_insert-IsSorted :
    (l : List Element) (item k : ℕ) → IsSorted l → IsSorted (sorted_insert l item k)
unfolding sorted_insert
sorted_insert-IsSorted [] item k s = (tt, tt)
sorted_insert-IsSorted (e ∷ l) item k s = elim (Bool-cases (ltb k e.key)) [
  | inl front ↦
      let lt = ltb→lt k e.key front in
      rw front ((omega arith, All-le_trans k e.key l (omega arith) s.0), s)
  | inr later ↦
      rw later (All-insert e.key l item k (ground arith) s.0, sorted_insert-IsSorted l item k s.1)
]

-- SortedRemove on a sorted list returns an element of least key, and leaves a sorted list; on the
-- empty list it returns NULL.
pub sorted_remove_least :
    (l : List Element)
    → IsSorted l
    → ((l ≡ []) × (sorted_remove l ≡ (none, [])))
      ⊎ ((e : Element) × (rest : List Element) × (l ≡ e ∷ rest)
          × (sorted_remove l ≡ (some e, rest))
          × All (λ f. e.key ≤ f.key) rest
          × IsSorted rest)
unfolding sorted_remove
sorted_remove_least [] s = inl (refl, refl)
sorted_remove_least (e ∷ l) s = inr (e, l, refl, refl, s.0, s.1)
