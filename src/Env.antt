-- ===== src/Env.antt =====
-- What bitdb takes from outside the repository: the crc32c library and the file system calls behind
-- bitdb/io/file_io.cpp. An open file is the list of its bytes.
use bitdb.Base.{
  ℕ, ◌+◌, ◌^◌, ◌≤◌, ◌<◌, ◌≡◌, Bool, true, Option, none, some, ◌++◌, length, take, drop, [], ltb,
  ◌%◌, if◌then◌else◌,
}
use bitdb.Coding.{Bytes}

pub record Env : Type 0 where
  -- crc32c::Crc32c and crc32c::Extend
  pub crc32c : Bytes → ℕ
  pub extend : ℕ → Bytes → ℕ
  -- pread64(2) of `n` bytes at an offset, write(2) on a file opened with O_APPEND (the count that was
  -- written), fsync(2) and fstat(2); `none` and `false` are the result -1
  pub pread : Bytes → ℕ → ℕ → Option Bytes
  pub write : Bytes → Bytes → Option ℕ
  pub fsync : Bytes → Bool
  pub fstat : Bytes → Bool
  -- the bytes of the stack that a local buffer may take
  pub stack : ℕ

-- The documented behaviour of the library, and of the calls on regular files where no error and no
-- signal occurs: they transfer at most 0x7ffff000 = 2 ^ 31 - 4096 bytes, and pread64(2) no more than
-- there are. The limit on the stack (setrlimit(2)) leaves room for a buffer of as many and one more.
pub record IsReliable (env : Env) : Type 0 where
  pub extend_crc32c : (a b : Bytes) → env.extend (env.crc32c a) b ≡ env.crc32c (a ++ b)
  pub crc32c_fits : (a : Bytes) → env.crc32c a < 2 ^ 32
  pub pread_all :
      (file : Bytes) (n offset : ℕ)
      → n + 4096 ≤ 2 ^ 31
      → offset ≤ length file
      → env.pread file n offset ≡ some (take n (drop offset file))
  pub write_all :
      (file buf : Bytes) → length buf + 4096 ≤ 2 ^ 31 → env.write file buf ≡ some (length buf)
  pub fsync_true : (file : Bytes) → env.fsync file ≡ true
  pub fstat_true : (file : Bytes) → env.fstat file ≡ true
  pub stack_room : 2 ^ 31 < env.stack + 4096

-- A count of bytes as FileIO::Read and FileIO::Write return it, an int; `none` is a negative one.
abbrev pub to_int : ℕ → Option ℕ
to_int n = if ltb (n % 2 ^ 32) (2 ^ 31) then some (n % 2 ^ 32) else none

-- The bytes that a count is good for
abbrev pub counted : Option ℕ → Bytes → Bytes
counted none buffer = []
counted (some res) buffer = take res buffer

module _ (env : Env) where
  -- FileIO::Size
  unfoldable pub file_size : Bytes → ℕ
  file_size file = if env.fstat file then length file else 0

  -- DataFile::ReadNBytes over FileIO::Read: an error reads nothing. Its buffer of `n + 1` bytes is a
  -- local variable.
  unfoldable pub read_n_bytes : Bytes → ℕ → ℕ → Option Bytes
  read_n_bytes file n offset =
      let read : Option Bytes = elim (env.pread file n offset) [
        | none ↦ some []
        | some buffer ↦ some (counted (to_int (length buffer)) buffer)
      ] in
      if ltb n env.stack then read else none
