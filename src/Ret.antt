-- ===== src/Ret.antt =====
-- How a function of the daemon ends: with a result, with the error that it returns
-- (`MNL_CB_ERROR`, `-EINVAL`), or in a failed assertion, which aborts the process.
use flower_route.Base.{Bool, true, false}

pub data Ret {ℓ} (A : Type ℓ) : Type ℓ where
  ok : A → Ret A
  error : Ret A
  aborted : Ret A

infixl 5 ◌>>=◌ ◌>>◌
abbrev pub ◌>>=◌ {ℓ κ} : {A : Type ℓ} {B : Type κ} → Ret A → (A → Ret B) → Ret B
ok a >>= f = f a
error >>= f = error
aborted >>= f = aborted

abbrev pub ◌>>◌ {ℓ} : {B : Type ℓ} → Ret (Unit {0}) → Ret B → Ret B
m >> k = m >>= λ _. k

-- `AN(e)` of src/common.h.
abbrev pub assert : Bool → Ret (Unit {0})
assert true = ok tt
assert false = aborted
