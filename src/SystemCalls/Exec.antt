-- ===== src/SystemCalls/Exec.antt =====
-- Code of the kernel that may stop the machine or end the calling thread.
use sgptp.Prelude.{ℕ}

-- `halted` is a call of Halt, `finished` the end of the calling thread, `aborted` a failed ASSERT.
pub data Outcome (S A : Type 0) : Type 0 where
  returned : A → S → Outcome S A
  halted : ℕ → Outcome S A
  finished : S → Outcome S A
  aborted : Outcome S A

abbrev pub Exec : Type 0 → Type 0 → Type 0
Exec S A = S → Outcome S A

module _ {S A : Type 0} where
  unfoldable pub pure : A → Exec S A
  pure a s = returned a s

  unfoldable pub halt : ℕ → Exec S A
  halt status s = halted status

  unfoldable pub abort : Exec S A
  abort s = aborted

  unfoldable pub gets : (S → A) → Exec S A
  gets f s = returned (f s) s

unfoldable pub modify : {S : Type 0} → (S → S) → Exec S (Unit {0})
modify f s = returned tt (f s)

module _ {S A B : Type 0} where
  abbrev pub continue : Outcome S A → (A → Exec S B) → Outcome S B
  continue (returned a s) f = f a s
  continue (halted status) f = halted status
  continue (finished s) f = finished s
  continue aborted f = aborted

  infixl 5 ◌>>=◌
  unfoldable pub ◌>>=◌ : Exec S A → (A → Exec S B) → Exec S B
  unfolding pure halt abort gets modify
  ◌>>=◌ m f s = continue (m s) f

infixl 5 ◌>>◌
abbrev pub ◌>>◌ : {S B : Type 0} → Exec S (Unit {0}) → Exec S B → Exec S B
m >> n = m >>= λ _. n
