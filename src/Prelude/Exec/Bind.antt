-- ===== src/Prelude/Exec/Bind.antt =====
-- The sequencing of stateful functions as a definition that only computes where it is unfolded, so that
-- the rules on invariants find it in a goal.
use maclet.Prelude.Exec.{Exec, continue}

infixl 5 ◌>>=◌ ◌>>◌
unfoldable pub ◌>>=◌ : {E S A B : Type 0} → Exec E S A → (A → Exec E S B) → Exec E S B
◌>>=◌ m f s = let (r, s') = m s in continue r f s'

abbrev pub ◌>>◌ : {E S A B : Type 0} → Exec E S A → Exec E S B → Exec E S B
m >> k = m >>= λ _. k
