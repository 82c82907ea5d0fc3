-- ===== src/PhysicalMem/Kept.antt =====
-- nachos/vm/physMem.cc: EvictPage and AddPhysicalToVirtualMapping leave a consistent manager, if the
-- threads that run meanwhile do.
use sgptp.Prelude.{
  ℕ, zero, suc, ◌+◌, ◌%◌, ◌≡◌, refl, ap, ◌∙◌, Bool, true, false, inl, inr, Option, none, some,
  get_elem?, if◌then◌else◌, ◌>>=◌, >>=-eq-some, update,
}
use mathlib.Core.Path.{subst}
use mathlib.Core.Option.{some-injective}
use sgptp.Prelude.Int.{ℤ}
use sgptp.TranslationTable.{TranslationTable, clear_bit_valid}
use sgptp.PhysicalMem.{
  Tpr, PhysicalMem, set_tpr, find_victim, change_owner, add_mapping, find_free_page,
}
use sgptp.PhysicalMem.Evict.{
  Others, on_owner, wait_owner_io, save_again, save_first, save_mapped, write_out, evict_page,
}
use sgptp.PhysicalMem.FreeList.{IsConsistent, find_free_page-Found, set_tpr-IsConsistent}

-- A result, if there is one, has the property.
pub record Ends {A : Type 0} (P : A → Type 0) (r : Option A) : Type 0 where
  pub from : (a : A) → r ≡ some a → P a

some-Ends : {A : Type 0} {P : A → Type 0} (a : A) → P a → Ends P (some a)
some-Ends {P = P} a h = record { from = λ b e. subst P (some-injective a b e) h }

bind-Ends :
    {A B : Type 0} {P : B → Type 0} (o : Option A) (next : A → Option B)
    → ((a : A) → o ≡ some a → Ends P (next a))
    → Ends P (o >>= next)
bind-Ends o next h = record {
  from = λ b e. let (a, first, rest) = >>=-eq-some o next e in (h a first).from b rest;
}

test-Ends :
    {A : Type 0} {P : A → Type 0} (test : Bool) (x y : Option A)
    → Ends P x
    → Ends P y
    → Ends P (if test then x else y)
test-Ends true x y hx hy = hx
test-Ends false x y hx hy = hy

-- The other threads leave the manager consistent.
pub record AreSafe (o : Others) : Type 0 where
  pub yield : (clock : ℕ) (m : PhysicalMem) → IsConsistent m → IsConsistent (o.yield clock m)
  pub write_at :
      (vpn : ℕ) (ad : ℤ) (page : ℕ) (m : PhysicalMem)
      → IsConsistent m
      → Ends IsConsistent (o.write_at vpn ad page m)
  pub put_page_swap :
      (ad : ℤ) (page : ℕ) (m : PhysicalMem)
      → IsConsistent m
      → Ends (λ r. IsConsistent r.1) (o.put_page_swap ad page m)

same_pages-IsConsistent :
    (m : PhysicalMem) (tables : ℕ → Option TranslationTable)
    → IsConsistent m
    → IsConsistent (record m { tables = tables })
same_pages-IsConsistent m tables c = record { agrees = c.agrees; distinct = c.distinct }

owner-IsConsistent :
    (m : PhysicalMem) (page : ℕ) (f : Tpr) (owner : Option ℕ)
    → IsConsistent m
    → get_elem? m.tpr page ≡ some f
    → IsConsistent (set_tpr m page (record f { owner = owner }))
owner-IsConsistent m page f owner c here = set_tpr-IsConsistent m page f _ c here refl

on_owner-Ends :
    (owner : ℕ) (change : TranslationTable → Option TranslationTable) (m : PhysicalMem)
    → IsConsistent m
    → Ends IsConsistent (on_owner owner change m)
unfolding on_owner
on_owner-Ends owner change m c = search (some-Ends, bind-Ends, same_pages-IsConsistent) depth 8

on_owner_same-Ends :
    (owner : ℕ) (change : TranslationTable → Option TranslationTable) (m : PhysicalMem)
    → IsConsistent m
    → Ends (λ m'. IsConsistent m' × (m'.tpr ≡ m.tpr)) (on_owner owner change m)
unfolding on_owner
on_owner_same-Ends owner change m c = bind-Ends (m.tables owner) _ λ t e.
    bind-Ends (change t) _ λ t' e'.
      some-Ends (record m { tables = update m.tables owner (some t') })
        (same_pages-IsConsistent m _ c, refl)

find_free_page-Ends :
    (m : PhysicalMem) → IsConsistent m → Ends (λ r. IsConsistent r.1) (find_free_page m)
find_free_page-Ends m c = elim (find_free_page-Found m c) [
  | inl (r, full) ↦ rw r (some-Ends (none, m) c)
  | inr (page, m1, r, t) ↦ rw r (some-Ends (some page, m1) t.consistent)
]

change_owner-Ends :
    (m : PhysicalMem) (page owner : ℕ)
    → IsConsistent m
    → Ends IsConsistent (change_owner m page owner)
unfolding change_owner
change_owner-Ends m page owner c = search (some-Ends, bind-Ends, owner-IsConsistent) depth 8

-- A step that is `first`, with what follows it.
then-Ends :
    {A B : Type 0} {Q : A → Type 0} {P : B → Type 0} {first : Option A} {next : A → Option B}
    → Ends Q first
    → ((a : A) → Q a → Ends P (next a))
    → Ends P (first >>= next)
then-Ends {first = first} {next = next} q h = bind-Ends first next λ a e. h a (q.from a e)

owner_then :
    {B : Type 0} {P : B → Type 0} (owner : ℕ) (change : TranslationTable → Option TranslationTable)
    (m : PhysicalMem) (next : PhysicalMem → Option B)
    → IsConsistent m
    → ((m' : PhysicalMem) → IsConsistent m' → Ends P (next m'))
    → Ends P (on_owner owner change m >>= next)
owner_then owner change m next c h = then-Ends (on_owner-Ends owner change m c) h

change_then :
    {B : Type 0} {P : B → Type 0} (m : PhysicalMem) (page owner : ℕ) (next : PhysicalMem → Option B)
    → IsConsistent m
    → ((m' : PhysicalMem) → IsConsistent m' → Ends P (next m'))
    → Ends P (change_owner m page owner >>= next)
change_then m page owner next c h = then-Ends (change_owner-Ends m page owner c) h

locked-IsConsistent :
    (m : PhysicalMem) (page : ℕ) (f : Tpr) (locked : Bool)
    → IsConsistent m
    → get_elem? m.tpr page ≡ some f
    → IsConsistent (set_tpr m page (record f { locked = locked }))
locked-IsConsistent m page f locked c here = set_tpr-IsConsistent m page f _ c here refl

ruleset keeping = (
  some-Ends, bind-Ends, test-Ends, owner_then, change_then, on_owner-Ends, change_owner-Ends,
  same_pages-IsConsistent,
)

module _ (o : Others) (safe : AreSafe o) where
  again-IsConsistent :
      (test : Bool) (clock : ℕ) (m : PhysicalMem)
      → IsConsistent m
      → IsConsistent (if test then o.yield clock m else m)
  again-IsConsistent true clock m c = safe.yield clock m c
  again-IsConsistent false clock m c = c

  put_then :
      {B : Type 0} {P : B → Type 0} (ad : ℤ) (page : ℕ) (m : PhysicalMem)
      (next : ℤ × PhysicalMem → Option B)
      → IsConsistent m
      → ((r : ℤ × PhysicalMem) → IsConsistent r.1 → Ends P (next r))
      → Ends P (o.put_page_swap ad page m >>= next)
  put_then ad page m next c h = then-Ends (safe.put_page_swap ad page m c) h

  find_victim-Ends :
      (num_pages fuel clock i : ℕ) (m : PhysicalMem)
      → IsConsistent m
      → Ends (λ r. IsConsistent r.1) (find_victim num_pages o.yield fuel clock i m)
  unfolding find_victim
  find_victim-Ends num_pages zero clock i m c = record { from = λ r e. cc }
  find_victim-Ends num_pages (suc fuel) clock i m c =
      search (keeping, again-IsConsistent, find_victim-Ends num_pages fuel) depth 12

  module _ (owner vpn page : ℕ) where
    wait_owner_io-Ends :
        (fuel : ℕ) (m : PhysicalMem)
        → IsConsistent m
        → Ends IsConsistent (wait_owner_io o owner vpn page fuel m)
    unfolding wait_owner_io
    wait_owner_io-Ends zero m c = record { from = λ r e. cc }
    wait_owner_io-Ends (suc fuel) m c =
        search (keeping, safe.yield, wait_owner_io-Ends fuel) depth 12

    save_again-Ends :
        (m : PhysicalMem) → IsConsistent m → Ends IsConsistent (save_again o owner vpn page m)
    unfolding save_again
    save_again-Ends m c = search (keeping, put_then) depth 12

    save_first-Ends :
        (m : PhysicalMem) → IsConsistent m → Ends IsConsistent (save_first o owner vpn page m)
    unfolding save_first
    save_first-Ends m c = search (keeping, put_then) depth 12

    write_out-Ends :
        (m : PhysicalMem) → IsConsistent m → Ends IsConsistent (write_out o owner vpn page m)
    unfolding write_out save_mapped
    write_out-Ends m c = search (keeping, safe.write_at, save_again-Ends, save_first-Ends) depth 12

  wait_then :
      {B : Type 0} {P : B → Type 0} (owner vpn page fuel : ℕ) (m : PhysicalMem)
      (next : PhysicalMem → Option B)
      → IsConsistent m
      → ((m' : PhysicalMem) → IsConsistent m' → Ends P (next m'))
      → Ends P (wait_owner_io o owner vpn page fuel m >>= next)
  wait_then owner vpn page fuel m next c h =
      then-Ends (wait_owner_io-Ends owner vpn page fuel m c) h

  write_then :
      {B : Type 0} {P : B → Type 0} (owner vpn page : ℕ) (m : PhysicalMem)
      (next : PhysicalMem → Option B)
      → IsConsistent m
      → ((m' : PhysicalMem) → IsConsistent m' → Ends P (next m'))
      → Ends P (write_out o owner vpn page m >>= next)
  write_then owner vpn page m next c h = then-Ends (write_out-Ends owner vpn page m c) h

  evict_page-Ends :
      (num_pages current fuel i_clock : ℕ) (m : PhysicalMem)
      → IsConsistent m
      → Ends (λ r. IsConsistent r.1) (evict_page o num_pages current fuel i_clock m)
  unfolding evict_page
  evict_page-Ends num_pages current fuel i_clock m c =
      then-Ends (find_victim-Ends num_pages fuel ((i_clock + 1) % num_pages) 0 m c) λ r c1.
        bind-Ends (get_elem? r.1.tpr r.0) _ λ f here. bind-Ends f.owner _ λ owner owned.
          then-Ends (on_owner_same-Ends owner (λ t. clear_bit_valid t f.virtual_page) r.1 c1)
            λ m2 kept.
              let c3 =
                locked-IsConsistent m2 r.0 f true kept.0
                  (ap (λ pages. get_elem? pages r.0) kept.1 ∙ here) in
              search (keeping, wait_then, write_then) depth 14

  chosen-Ends :
      (num_pages current fuel i_clock : ℕ) (found : Option ℕ) (m : PhysicalMem)
      → IsConsistent m
      → Ends
          (λ r. IsConsistent r.1)
          (elim found as (λ x. Option (ℕ × PhysicalMem)) [
            | some page ↦ some (page, m)
            | none ↦ evict_page o num_pages current fuel i_clock m
          ])
  chosen-Ends num_pages current fuel i_clock (some page) m c = some-Ends (page, m) c
  chosen-Ends num_pages current fuel i_clock none m c =
      evict_page-Ends num_pages current fuel i_clock m c

  -- AddPhysicalToVirtualMapping, with EvictPage where no page is free.
  pub add_mapping-Ends :
      (num_pages current fuel i_clock owner virtual_page : ℕ) (m : PhysicalMem)
      → IsConsistent m
      → Ends
          (λ r. IsConsistent r.1)
          (add_mapping (evict_page o num_pages current fuel i_clock) m owner virtual_page)
  unfolding add_mapping
  add_mapping-Ends num_pages current fuel i_clock owner virtual_page m c =
      then-Ends (find_free_page-Ends m c) λ free c1.
        then-Ends (chosen-Ends num_pages current fuel i_clock free.0 free.1 c1) λ r c2.
          bind-Ends (get_elem? r.1.tpr r.0) _ λ f here.
            some-Ends
              (
                r.0,
                set_tpr r.1 r.0
                    (record f { virtual_page = virtual_page; owner = some owner; locked = true }),
              )
              (set_tpr-IsConsistent r.1 r.0 f _ c2 here refl)
