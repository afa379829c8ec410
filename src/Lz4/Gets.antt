-- ===== src/Lz4/Gets.antt =====
-- The lengths behind a token.
use dumpbin_py_zfs_rescue.Common.{
  ℕ, suc, ◌+◌, ◌-◌, ◌/◌, ◌%◌, ◌^◌, ◌≤◌, ◌<◌, ◌≡◌, ◌≢◌, refl, ◌∙◌, arith,
}
use native.Mathlib.Decide.{ℕ_discrete}
use dumpbin_py_zfs_rescue.Lz4.Run.{Run, ok, Input}
use dumpbin_py_zfs_rescue.Lz4.Decode.{Length, get_runlength, get_matchlength}
use dumpbin_py_zfs_rescue.Lz4.Format.{IsBytes, HasLength, short, long}
use dumpbin_py_zfs_rescue.Lz4.Lengths.{ReadsLength, ==_self, run_length-Reads, match_length-Reads}

module _ (src : Input) (iend : ℕ) (bytes : IsBytes src) (inside : iend ≤ src.size) where
  -- The length behind a token, with its bits in the token.
  pub record GetsLength (bits ip : ℕ) (r : Run Length) : Type 0 where
    pub n : ℕ
    pub q : ℕ
    pub returns : r ≡ ok (record { ip = q; length = n })
    pub reads : HasLength src iend bits ip n q
    pub forward : ip ≤ q
    pub within : q ≤ iend

  Gets_short :
      (bits ip : ℕ) (r : Run Length)
      → r ≡ ok (record { ip = ip; length = bits })
      → bits ≢ 15
      → ip ≤ iend
      → GetsLength bits ip r
  Gets_short bits ip r e ne le = record {
    n = bits;
    q = ip;
    returns = e;
    reads = short ne refl refl;
    forward = omega arith;
    within = le;
  }

  Gets_long :
      (bits ip : ℕ) (r : Run Length)
      → bits ≡ 15
      → ReadsLength src iend ip bits r
      → GetsLength bits ip r
  Gets_long bits ip r e h = record {
    n = 15 + h.n;
    q = h.q;
    returns = h.returns ∙ ground arith;
    reads = long h.n e refl h.reads;
    forward = h.forward;
    within = h.within;
  }

  module _ (ip token : ℕ) (le : ip ≤ iend) (small : iend < 2 ^ 31) where
    -- The run length of a token is the one that the format gives it, read up to `iend` at most,
    -- where the input is below 2 ^ 31 bytes.
    pub get_runlength-Gets : GetsLength (token / 16) ip (get_runlength src iend ip token)
    unfolding get_runlength
    get_runlength-Gets = elim (ℕ_discrete (token / 16) 15) [
      | no ne ↦ Gets_short (token / 16) ip _ (ground arith) ne le
      | yes e ↦ Gets_long (token / 16) ip _ e (
          rw (==_self (token / 16) e) (
            run_length-Reads src iend bytes inside (suc (iend - ip)) ip (token / 16) (omega arith)
              le (omega arith)))
    ]

    -- The match length of a token, less four, is the one that the format gives it, read up to `iend`
    -- at most, where the input is below 2 ^ 31 bytes.
    pub get_matchlength-Gets : GetsLength (token % 16) ip (get_matchlength src iend ip token)
    unfolding get_matchlength
    get_matchlength-Gets = elim (ℕ_discrete (token % 16) 15) [
      | no ne ↦ Gets_short (token % 16) ip _ (ground arith) ne le
      | yes e ↦ Gets_long (token % 16) ip _ e (
          rw (==_self (token % 16) e) (
            match_length-Reads src iend bytes inside (suc (iend - ip)) ip (token % 16) (omega arith)
              le (omega arith)))
    ]
