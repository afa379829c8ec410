-- ===== src/Rescue/Py.antt =====
use dumpbin_py_zfs_rescue.Common.{◌≡◌, refl, ap, arith}

-- What a piece of Python ends with: a value, or an exception.
pub data Py {ℓ} (A : Type ℓ) : Type ℓ where
  done : A → Py A
  raised : Py A

infixl 5 ◌>>=◌
abbrev pub ◌>>=◌ {ℓ} : {A B : Type ℓ} → Py A → (A → Py B) → Py B
done a >>= k = k a
raised >>= k = raised

abbrev value_or {ℓ} : {A : Type ℓ} → A → Py A → A
value_or a (done b) = b
value_or a raised = a

pub done_injective {ℓ} : {A : Type ℓ} {a b : A} → done a ≡ done b → a ≡ b
done_injective {a = a} e = ap (value_or a) e

-- What returns a value behind `m` has a value of `m`.
pub bind-cases {ℓ} :
    {A B : Type ℓ} (m : Py A) (k : A → Py B) (b : B)
    → (m >>= k) ≡ done b
    → (a : A) × (m ≡ done a) × (k a ≡ done b)
bind-cases (done a) k b e = (a, refl, e)
bind-cases raised k b e = ground (arith, e)
