-- ===== src/Examples/World.antt =====
-- A concrete checksum and file system, a few records, and a database with a history.
use bitdb.Base.{ℕ, ◌+◌, ◌%◌, ◌^◌, ◌≡◌, refl, arith, true, some, [], ◌∷◌, ◌++◌, length, take, drop}
use bitdb.Bytes.{Bytes}
use bitdb.Env.{Env, IsReliable}
use bitdb.Record.{LogRecord, normal_log_record}
use bitdb.Record.Layout.{IsEncodable}

pub sum_of : Bytes → ℕ
sum_of [] = 0
sum_of (b ∷ bs) = b + sum_of bs

sum_of-append : (a b : Bytes) → sum_of (a ++ b) ≡ sum_of a + sum_of b
unfolding sum_of
sum_of-append [] b = omega arith
sum_of-append (x ∷ a) b = omega (arith, sum_of-append a b)

-- The sum of the bytes in the place of a checksum.
abbrev pub disk : Env
disk = record {
  crc32c = λ a. sum_of a % 2 ^ 32;
  extend = λ c a. (c + sum_of a) % 2 ^ 32;
  pread = λ file n offset. some (take n (drop offset file));
  write = λ file buf. some (length buf);
  fsync = λ file. true;
  fstat = λ file. true;
  stack = 2 ^ 31;
}

pub disk-IsReliable : IsReliable disk
disk-IsReliable = record {
  extend_crc32c = λ a b. omega (arith, sum_of-append a b);
  crc32c_fits = λ a. omega arith;
  pread_all = λ file n offset short inside. refl;
  write_all = λ file buf short. refl;
  fsync_true = λ file. refl;
  fstat_true = λ file. refl;
  stack_room = omega arith;
}

-- A key `k` with the value `v1`.
abbrev pub sample : LogRecord
sample = record { key = b'k' ∷ []; value = b'v' ∷ b'1' ∷ []; type = normal_log_record }

pub sample-IsEncodable : IsEncodable sample
sample-IsEncodable = record { keyed = refl; fits = omega arith; byte_type = omega arith }
