-- ===== src/DataFile.antt =====
-- bitdb/data/data_file.h and data_file.cpp, over bitdb/io/file_io.cpp.
-- The contents of the file stand for the handle; a record is read from the contents.
pub mod Read
use bitdb.Base.{
  ℕ, ◌+◌, ◌-◌, ◌%◌, ◌^◌, ◌≡◌, Bool, true, false, ◌&&◌, ◌||◌, Option, none, some, [], ◌∷◌, ◌++◌,
  length, take, drop, ltb, ◌==◌, if◌then◌else◌,
}
use bitdb.Status.{
  Outcome, ok, err, Fallible, return_ok, return_err, defined, ◌>>=◌, io_error, corruption,
}
use bitdb.Coding.{Bytes}
use bitdb.Env.{Env, file_size, read_n_bytes, to_int}
use bitdb.Record.{
  LogRecord, LogRecordHeader, empty, k_max_log_record_header_size, decode_log_record_header,
  get_log_record_crc, encode_log_record,
}

pub record DataFile : Type 0 where
  pub file_id : ℕ
  pub write_off : ℕ
  -- what `io_handler` reads and writes
  pub contents : Bytes

-- The header is read short at the end of the file; the sum is a `uint64_t`.
unfoldable pub header_read_size : ℕ → ℕ → ℕ
header_read_size size offset =
    if ltb size ((offset + k_max_log_record_header_size) % 2 ^ 64)
    then size - offset
    else k_max_log_record_header_size

-- The key and the value of the record, cut out of what is read behind the header. The sizes are
-- `uint32_t`, and so are their sums.
unfoldable pub read_key_value : Env → Bytes → ℕ → LogRecordHeader → ℕ → Fallible LogRecord
read_key_value env file offset header header_size =
    let size = (header.key_size + header.value_size) % 2 ^ 32 in
    let read : Fallible LogRecord =
      defined (read_n_bytes env file size (offset + header_size)) >>= λ kv_buf.
      if empty kv_buf
      then return_err io_error
      else if ltb (length kv_buf) (header.key_size + header.value_size)
      then none
      else return_ok (record {
        key = take header.key_size kv_buf;
        value = take header.value_size (drop header.key_size kv_buf);
        type = header.record_type;
      }) in
    if ltb 0 header.key_size || ltb 0 header.value_size
    then if ltb size (file_size env file) then read else none
    else return_ok (record { key = []; value = []; type = header.record_type })

-- The crc that is stored against the crc of what was read. The copy of the header goes beyond a buffer
-- that is shorter.
unfoldable pub check_crc : Env → Bytes → LogRecordHeader → ℕ → LogRecord → Fallible (LogRecord × ℕ)
check_crc env header_buf header header_size log_record =
    if ltb (length header_buf) header_size
    then none
    else if get_log_record_crc env log_record (take header_size header_buf) == header.crc
    then return_ok (log_record, (header_size + header.key_size + header.value_size) % 2 ^ 32)
    else return_err corruption

unfoldable pub read_behind_header : Env → Bytes → ℕ → Bytes → Fallible (LogRecord × ℕ)
read_behind_header env file offset header_buf = do
  (header, header_size) ← defined (decode_log_record_header header_buf)
  if header_size == 0 || (header.crc == 0 && header.key_size == 0 && header.value_size == 0)
      then return_err io_error
      else (do
        log_record ← read_key_value env file offset header header_size
        check_crc env header_buf header header_size log_record)

-- DataFile::ReadLogRecord: the record at `offset` and its size, which is 0 at the end of the file.
-- An offset behind the end makes a buffer of negative length.
unfoldable pub read_log_record : Env → Bytes → ℕ → Fallible (LogRecord × ℕ)
read_log_record env file offset =
    let size = file_size env file in
    let read : Fallible (LogRecord × ℕ) = do
      header_buf ← defined (read_n_bytes env file (header_read_size size offset) offset)
      if empty header_buf
          then return_err io_error
          else read_behind_header env file offset header_buf
    in if size == 0
      then return_err io_error
      else if size == offset
      then return_ok (record { key = []; value = []; type = 0 }, 0)
      else if ltb size offset
      then none
      else read

abbrev count_written : Option ℕ → DataFile → Outcome (Unit {0}) × DataFile
count_written none file = (err io_error, file)
count_written (some size) file = (ok tt, record file { write_off = file.write_off + size })

-- DataFile::Write: write(2) appends what it takes of the buffer, and its count is read as an int.
unfoldable pub write : Env → DataFile → Bytes → Outcome (Unit {0}) × DataFile
write env file buf = elim (env.write file.contents buf) [
  | none ↦ (err io_error, file)
  | some size ↦
      count_written (to_int size) (record file { contents = file.contents ++ take size buf })
]

-- DataFile::Sync
unfoldable pub sync : Env → DataFile → Fallible (Unit {0})
sync env file = if env.fsync file.contents then return_ok tt else return_err io_error
