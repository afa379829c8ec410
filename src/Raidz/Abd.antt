-- ===== src/Raidz/Abd.antt =====
-- `abd_t` and its functions, extractor/zio.h and extractor/zio.cpp. Each `malloc` is numbered: `self`
-- is the allocation of the structure, and `abd_buf` with `abd_off` is the pointer that it holds.
use dumpbin_py_zfs_rescue.Common.{
  ℕ, ◌+◌, Option, none, some, M, pure, ◌>>=◌, ◌>>◌, malloc, free, bit_and, ◌==◌, if◌then◌else◌,
}

abbrev pub abd_flag_linear : ℕ
abd_flag_linear = 1

abbrev pub abd_flag_owner : ℕ
abd_flag_owner = 2

abbrev pub abd_flag_meta : ℕ
abd_flag_meta = 4

abbrev pub abd_flag_multi_zone : ℕ
abd_flag_multi_zone = 8

abbrev pub abd_flag_multi_chunk : ℕ
abd_flag_multi_chunk = 16

pub record Abd : Type 0 where
  pub self : ℕ
  pub abd_flags : ℕ
  pub abd_size : ℕ
  pub abd_parent : Option ℕ
  pub abd_buf : ℕ
  pub abd_off : ℕ

-- `sizeof(abd_t)`
abbrev pub abd_bytes : ℕ
abd_bytes = 32

unfoldable pub abd_free : Abd → M (Unit {0})
abd_free a =
    (if bit_and a.abd_flags abd_flag_owner == 0 then pure tt else free a.abd_buf) >> free a.self

-- `ABD_FLAG_OWNER | ABD_FLAG_LINEAR`
unfoldable pub abd_alloc_linear : ℕ → M Abd
unfolding malloc
abd_alloc_linear size = do
  self ← malloc abd_bytes
  buf ← malloc size
  pure (record {
    self = self;
    abd_flags = abd_flag_owner + abd_flag_linear;
    abd_size = size;
    abd_parent = none;
    abd_buf = buf;
    abd_off = 0;
  })

unfoldable pub abd_get_offset_size : Abd → ℕ → ℕ → M Abd
unfolding malloc
abd_get_offset_size sabd off size = do
  self ← malloc abd_bytes
  pure (record {
    self = self;
    abd_flags = 0;
    abd_size = size;
    abd_parent = some sabd.self;
    abd_buf = sabd.abd_buf;
    abd_off = sabd.abd_off + off;
  })
