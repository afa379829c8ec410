-- ===== src/Lz4/Module.antt =====
-- What the Python module keeps and how it starts, and its two helpers for four bytes:
-- zfs/python-lz4-0.7.0+dfsg.c.bck/src/python-lz4zfs.c, as it is compiled for Python 3.
use dumpbin_py_zfs_rescue.Common.{
  ℕ, ◌+◌, ◌*◌, ◌/◌, ◌%◌, ◌^◌, ◌<◌, ◌≡◌, refl, ap, ◌∙◌, arith, bit_or, [], ◌∷◌, List, Option, none,
  some, get_or, ◌==◌, if◌then◌else◌,
}
use dumpbin_py_zfs_rescue.Common.Fields.{bit_or-low}

-- c[0] to c[3]: the lowest eight bits of `x` shifted right by 0, 8, 16 and 24.
unfoldable pub store_le32 : ℕ → List ℕ
store_le32 x = x % 2 ^ 8 ∷ x / 2 ^ 8 % 2 ^ 8 ∷ x / 2 ^ 16 % 2 ^ 8 ∷ x / 2 ^ 24 % 2 ^ 8 ∷ []

-- d[0] | (d[1] << 8) | (d[2] << 16) | (d[3] << 24), as a number of 32 bits.
unfoldable pub load_le32 : List ℕ → ℕ
load_le32 d =
    bit_or (bit_or (bit_or (get_or d 0 0) (get_or d 1 0 * 2 ^ 8)) (get_or d 2 0 * 2 ^ 16))
      (get_or d 3 0 * 2 ^ 24)
    % 2 ^ 32

-- What is stored is loaded again.
pub load_le32-store_le32 : (x : ℕ) → x < 2 ^ 32 → load_le32 (store_le32 x) ≡ x
unfolding load_le32 store_le32
load_le32-store_le32 x lt =
    let two = bit_or-low 8 (x % 2 ^ 8) (x / 2 ^ 8 % 2 ^ 8) (omega arith) in
    let three =
      ap (λ t. bit_or t (x / 2 ^ 16 % 2 ^ 8 * 2 ^ 16)) two
      ∙ bit_or-low 16 (x / 2 ^ 8 % 2 ^ 8 * 2 ^ 8 + x % 2 ^ 8) (x / 2 ^ 16 % 2 ^ 8) (omega arith) in
    let four =
      ap (λ t. bit_or t (x / 2 ^ 24 % 2 ^ 8 * 2 ^ 24)) three
      ∙ bit_or-low 24 (x / 2 ^ 16 % 2 ^ 8 * 2 ^ 16 + (x / 2 ^ 8 % 2 ^ 8 * 2 ^ 8 + x % 2 ^ 8))
          (x / 2 ^ 24 % 2 ^ 8) (omega arith) in
    omega (arith, four)

-- Objects of Python are numbers. `struct module_state`:
pub record ModuleState : Type 0 where
  pub error : Option ℕ

-- What CPython answers: `PyModule_Create`, and `PyErr_NewException` with the name "lz4.Error".
pub record Python : Type 0 where
  pub module_create : Option ℕ
  pub new_exception : Option ℕ

-- The calls of CPython that change its objects, in their order.
pub data Call : Type 0 where
  created : ℕ → Call
  decref : ℕ → Call
  -- PyErr_NewException, whose result `st->error` keeps
  excepted : ℕ → Call
  -- PyModule_AddStringConstant with "VERSION" and "LZ4_VERSION"
  add_version : ℕ → Call
  add_lz4_version : ℕ → Call

pub record ModuleStart : Type 0 where
  pub result : Option ℕ
  pub state : ModuleState
  pub calls : List Call

-- From the new exception on. `INITERROR` is `return NULL`.
unfoldable pub with_module : ℕ → Option ℕ → ModuleStart
with_module m none = record {
  result = none;
  state = record { error = none };
  calls = created m ∷ decref m ∷ [];
}
with_module m (some e) = record {
  result = some m;
  state = record { error = some e };
  calls = created m ∷ excepted e ∷ add_version m ∷ add_lz4_version m ∷ [];
}

-- From the answer of `PyModule_Create` on.
unfoldable pub start : (created exception : Option ℕ) → ModuleStart
unfolding with_module
start none exception = record { result = none; state = record { error = none }; calls = [] }
start (some m) exception = with_module m exception

-- `PyInit_lz4zfs`
abbrev pub init : Python → ModuleStart
init py = start py.module_create py.new_exception

-- `Py_VISIT` visits an object that is there.
abbrev pub py_visit : Option ℕ → List ℕ
py_visit none = []
py_visit (some e) = e ∷ []

-- `Py_CLEAR` takes the object out and gives its reference back.
abbrev pub py_clear : Option ℕ → Option ℕ × List Call
py_clear none = (none, [])
py_clear (some e) = (none, decref e ∷ [])

-- `myextension_traverse` returns 0 after its visits.
abbrev pub myextension_traverse : ModuleState → List ℕ
myextension_traverse st = py_visit st.error

abbrev pub myextension_clear : ModuleState → ModuleState × List Call
myextension_clear st = (record { error = (py_clear st.error).0 }, (py_clear st.error).1)

-- How many times object `o` is in a list.
abbrev pub count : ℕ → List ℕ → ℕ
count o [] = 0
count o (x ∷ xs) = (if x == o then 1 else 0) + count o xs

-- The references that calls make, and those that they give back.
abbrev pub made : List Call → List ℕ
made [] = []
made (created m ∷ cs) = m ∷ made cs
made (decref m ∷ cs) = made cs
made (excepted e ∷ cs) = e ∷ made cs
made (add_version m ∷ cs) = made cs
made (add_lz4_version m ∷ cs) = made cs

abbrev pub given_back : List Call → List ℕ
given_back [] = []
given_back (created m ∷ cs) = given_back cs
given_back (decref m ∷ cs) = m ∷ given_back cs
given_back (excepted e ∷ cs) = given_back cs
given_back (add_version m ∷ cs) = given_back cs
given_back (add_lz4_version m ∷ cs) = given_back cs

with_module_balanced :
    (m : ℕ) (e : Option ℕ) (o : ℕ)
    → count o (made (with_module m e).calls)
      ≡ count o (given_back (with_module m e).calls)
        + count o (py_visit (with_module m e).result)
        + count o (myextension_traverse (with_module m e).state)
unfolding with_module
with_module_balanced m none o = omega arith
with_module_balanced m (some e) o = omega arith

start_balanced :
    (m e : Option ℕ) (o : ℕ)
    → count o (made (start m e).calls)
      ≡ count o (given_back (start m e).calls)
        + count o (py_visit (start m e).result)
        + count o (myextension_traverse (start m e).state)
unfolding start
start_balanced none e o = refl
start_balanced (some m) e o = with_module_balanced m e o

clear_visit :
    (error : Option ℕ) (o : ℕ)
    → (count o (given_back (py_clear error).1) ≡ count o (py_visit error))
      × (py_visit (py_clear error).0 ≡ [])
clear_visit none o = (refl, refl)
clear_visit (some e) o = (refl, refl)

-- Whatever CPython answers, the references that the start of the module makes are given back, but for
-- that of a module which is returned and that of the exception which its state keeps.
pub init_balanced :
    (py : Python) (o : ℕ)
    → count o (made (init py).calls)
      ≡ count o (given_back (init py).calls)
        + count o (py_visit (init py).result)
        + count o (myextension_traverse (init py).state)
init_balanced py o = start_balanced py.module_create py.new_exception o

-- Clearing the state gives back the references that a traversal visits, after which it visits none.
pub traverse_clear :
    (st : ModuleState) (o : ℕ)
    → (count o (given_back (myextension_clear st).1) ≡ count o (myextension_traverse st))
      × (myextension_traverse (myextension_clear st).0 ≡ [])
traverse_clear st o = clear_visit st.error o
