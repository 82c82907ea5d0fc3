-- ===== src/SystemCalls/Preserving.antt =====
-- Properties of the state that code of the kernel preserves whenever it returns. Each rule is for one
-- way to build such code.
use sgptp.Prelude.{ℕ, Bool, true, false, Option, none, some, if◌then◌else◌}
use sgptp.SystemCalls.Exec.{
  Outcome, returned, halted, finished, aborted, Exec, continue, pure, halt, abort, gets, ◌>>=◌,
}

-- An outcome that is a return has the property.
abbrev pub Ensures : {S A : Type 0} → (S → Type 0) → Outcome S A → Type 0
Ensures P (returned a s) = P s
Ensures P (halted status) = Unit
Ensures P (finished s) = Unit
Ensures P aborted = Unit

pub record Preserves {S A : Type 0} (P : S → Type 0) (code : Exec S A) : Type 0 where
  pub from : (s : S) → P s → Ensures P (code s)

pub pure-Preserves : {S A : Type 0} {P : S → Type 0} (a : A) → Preserves P (pure a)
unfolding pure
pure-Preserves a = record { from = λ s p. p }

pub gets-Preserves : {S A : Type 0} {P : S → Type 0} (read : S → A) → Preserves P (gets read)
unfolding gets
gets-Preserves read = record { from = λ s p. p }

pub halt-Preserves :
    {S A : Type 0} {P : S → Type 0} (status : ℕ) → Preserves P (halt {S = S} {A = A} status)
unfolding halt
halt-Preserves status = record { from = λ s p. tt }

pub abort-Preserves : {S A : Type 0} {P : S → Type 0} → Preserves P (abort {S = S} {A = A})
unfolding abort
abort-Preserves = record { from = λ s p. tt }

pub test-Preserves :
    {S A : Type 0} {P : S → Type 0} (test : Bool) (yes_code no_code : Exec S A)
    → Preserves P yes_code
    → Preserves P no_code
    → Preserves P (if test then yes_code else no_code)
test-Preserves true yes_code no_code y n = y
test-Preserves false yes_code no_code y n = n

pub option-Preserves :
    {S A B : Type 0} {P : S → Type 0} (o : Option A) (missing : Exec S B) (found : A → Exec S B)
    → Preserves P missing
    → ((a : A) → Preserves P (found a))
    → Preserves P (elim o as (λ x. Exec S B) [ none ↦ missing | some a ↦ found a ])
option-Preserves none missing found m f = m
option-Preserves (some a) missing found m f = f a

continue-Ensures :
    {S A B : Type 0} {P : S → Type 0} (outcome : Outcome S A) (next : A → Exec S B)
    → Ensures P outcome
    → ((a : A) → Preserves P (next a))
    → Ensures P (continue outcome next)
continue-Ensures (returned a s) next p n = (n a).from s p
continue-Ensures (halted status) next p n = tt
continue-Ensures (finished s) next p n = tt
continue-Ensures aborted next p n = tt

pub bind-Preserves :
    {S A B : Type 0} {P : S → Type 0} (first : Exec S A) (next : A → Exec S B)
    → Preserves P first
    → ((a : A) → Preserves P (next a))
    → Preserves P (first >>= next)
unfolding ◌>>=◌
bind-Preserves first next p n = record {
  from = λ s here. continue-Ensures (first s) next (p.from s here) n;
}

pub ruleset preserving = (
  pure-Preserves, gets-Preserves, halt-Preserves, abort-Preserves, test-Preserves, option-Preserves,
  bind-Preserves,
)
