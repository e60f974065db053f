-- ===== src/DataFile/Read.antt =====
-- bitdb/data/data_file.cpp: ReadLogRecord reads back what EncodeLogRecord wrote.
use mathlib.Core.List.{append_assoc}
use bitdb.Base.{
  ℕ, ◌+◌, ◌-◌, ◌%◌, ◌^◌, ◌≤◌, ◌<◌, ◌≡◌, refl, ap, sym, ◌∙◌, arith, some, [], ◌∷◌, ◌++◌, length,
  take, length-append, drop-append, take-append, take-append_more, take_all, length-take, false,
  ◌||◌, ◌&&◌, ◌==◌,
}
use bitdb.Status.{ok}
use bitdb.Coding.{Bytes, encode_fixed32}
use bitdb.Env.{Env, IsReliable, file_size, read_n_bytes}
use bitdb.Record.{
  LogRecord, empty, checked_part, header_tail, encode_log_record, get_log_record_crc,
}
use bitdb.Record.Layout.{
  IsEncodable, header_of, parsed_header, encode_log_record-header_of, length-header_of,
  decode_log_record_header-header_of,
}
use bitdb.DataFile.{
  header_read_size, read_key_value, check_crc, read_behind_header, read_log_record,
}

length-not_empty : (xs : Bytes) → empty xs ≡ false → 0 < length xs
length-not_empty [] h = cc
length-not_empty (x ∷ xs) h = omega arith

module _ (env : Env) (reliable : IsReliable env) where
  -- A read inside the file.
  read_n_bytes_inside :
      (pre rest : Bytes) (n offset : ℕ)
      → offset ≡ length pre
      → n + 4096 ≤ 2 ^ 31
      → read_n_bytes env (pre ++ rest) n offset ≡ some (take n rest)
  unfolding read_n_bytes
  read_n_bytes_inside pre rest n offset at short =
      let read =
        reliable.pread_all (pre ++ rest) n offset short (omega (arith, length-append pre rest)) in
      let room : n < env.stack = omega (arith, reliable.stack_room) in
      let cut = drop-append pre rest offset at in
      let count = length-take n rest in
      ground (arith, read, room, cut, count, take_all (length (take n rest)) (take n rest))

  file_size_lem : (file : Bytes) → file_size env file ≡ length file
  unfolding file_size
  file_size_lem file = rw (reliable.fstat_true file)

  crc-header_of :
      (r : LogRecord) → get_log_record_crc env r (header_of env r) ≡ env.crc32c (checked_part r)
  unfolding get_log_record_crc header_of encode_fixed32 checked_part
  crc-header_of r =
      rw
        (
          reliable.extend_crc32c (header_tail r) r.key,
          reliable.extend_crc32c (header_tail r ++ r.key) r.value,
        )
        (ap env.crc32c (append_assoc (header_tail r) r.key r.value))

  check_crc-parsed :
      (r : LogRecord) (more : Bytes)
      → IsEncodable r
      → check_crc env (header_of env r ++ more) (parsed_header env r) (length (header_of env r)) r
        ≡ some (ok (r, length (header_of env r) + length r.key + length r.value))
  unfolding check_crc parsed_header
  check_crc-parsed r more encodable =
      rw (take-append (header_of env r) more (length (header_of env r)) refl, crc-header_of r)
        (ground (
          arith,
          length-header_of env r encodable,
          length-append (header_of env r) more,
          encodable.fits,
        ))

  -- The key and the value, read behind the header.
  read_n_bytes-key_value :
      (r : LogRecord) (pre post : Bytes) (n offset : ℕ)
      → offset ≡ length pre
      → n ≡ length r.key + length r.value
      → IsEncodable r
      → read_n_bytes env (pre ++ (r.key ++ (r.value ++ post))) n offset ≡ some (r.key ++ r.value)
  read_n_bytes-key_value r pre post n offset at size encodable =
      rw (sym (append_assoc r.key r.value post)) (
        read_n_bytes_inside pre ((r.key ++ r.value) ++ post) n offset at
          (omega (arith, encodable.fits))
        ∙ ap (λ (t : Bytes). some t)
            (take-append (r.key ++ r.value) post n (omega (arith, length-append r.key r.value))))

  empty-append : (xs ys : Bytes) → empty xs ≡ false → empty (xs ++ ys) ≡ false
  empty-append [] ys h = cc
  empty-append (x ∷ xs) ys h = refl

  -- A record has a key, so its header is not one of padding.
  nonzero_header :
      (r : LogRecord)
      → IsEncodable r
      → (length (header_of env r) == 0
          || ((parsed_header env r).crc == 0
              && (parsed_header env r).key_size == 0
              && (parsed_header env r).value_size == 0))
        ≡ false
  unfolding parsed_header
  nonzero_header r encodable =
      ground (arith, length-not_empty r.key, length-header_of env r encodable)

  read_key_value-parsed :
      (r : LogRecord) (pre post : Bytes) (offset : ℕ)
      → IsEncodable r
      → offset ≡ length pre
      → read_key_value env
          ((pre ++ header_of env r) ++ (r.key ++ (r.value ++ post)))
          offset
          (parsed_header env r)
          (length (header_of env r))
        ≡ some (ok r)
  unfolding read_key_value parsed_header
  read_key_value-parsed r pre post offset encodable at =
      rw
        (
          read_n_bytes-key_value r (pre ++ header_of env r) post
              ((length r.key + length r.value) % 2 ^ 32) (offset + length (header_of env r))
              (omega (arith, length-append pre (header_of env r))) (omega arith) encodable,
          file_size_lem ((pre ++ header_of env r) ++ (r.key ++ (r.value ++ post))),
          empty-append r.key r.value encodable.keyed,
          take-append r.key r.value (length r.key) refl,
          drop-append r.key r.value (length r.key) refl,
          take_all (length r.value) r.value (omega arith),
        )
        (ground (
          arith,
          length-not_empty r.key,
          length-append r.key r.value,
          length-append (pre ++ header_of env r) (r.key ++ (r.value ++ post)),
          length-append pre (header_of env r),
          length-append r.key (r.value ++ post),
          length-append r.value post,
          length-header_of env r encodable,
        ))

  -- The short read at the end of the file still covers the header.
  header_read_size-covers :
      (r : LogRecord) (offset rest : ℕ)
      → IsEncodable r
      → length (header_of env r) ≤ rest
      → (length (header_of env r) ≤ header_read_size (offset + rest) offset)
        × (header_read_size (offset + rest) offset ≤ 15)
  unfolding header_read_size
  header_read_size-covers r offset rest encodable h =
      ground (arith, length-header_of env r encodable)

  -- What follows the header in a read of the header.
  header_read :
      (r : LogRecord) (pre more : Bytes)
      → IsEncodable r
      → (tail : Bytes) × (read_n_bytes env
            (pre ++ (header_of env r ++ more))
            (header_read_size (length (pre ++ (header_of env r ++ more))) (length pre))
            (length pre)
          ≡ some (header_of env r ++ tail))
  header_read r pre more encodable =
      let n = header_read_size (length (pre ++ (header_of env r ++ more))) (length pre) in
      let size = length-append pre (header_of env r ++ more) in
      let both = length-append (header_of env r) more in
      let covers = rw (← size) at (
        header_read_size-covers r (length pre) (length (header_of env r ++ more)) encodable
          (omega (arith, both))) in
      (
        take (n - length (header_of env r)) more,
        read_n_bytes_inside pre (header_of env r ++ more) n (length pre) refl
              (omega (arith, covers.1))
            ∙ ap (λ (t : Bytes). some t) (take-append_more (header_of env r) more n covers.0),
      )

  read_behind_header-encoded :
      (r : LogRecord) (pre post tail : Bytes)
      → IsEncodable r
      → read_behind_header env
          ((pre ++ header_of env r) ++ (r.key ++ (r.value ++ post)))
          (length pre)
          (header_of env r ++ tail)
        ≡ some (ok (r, length (header_of env r) + length r.key + length r.value))
  unfolding read_behind_header
  read_behind_header-encoded r pre post tail encodable =
      rw
        (
          decode_log_record_header-header_of env r tail reliable encodable,
          nonzero_header r encodable,
          read_key_value-parsed r pre post (length pre) encodable refl,
        )
        (check_crc-parsed r tail encodable)

  -- The file around a record, as the loop over it and as the reads inside it see it.
  regroup_file :
      (r : LogRecord) (pre post : Bytes)
      → IsEncodable r
      → pre ++ (encode_log_record env r ++ post)
        ≡ (pre ++ header_of env r) ++ (r.key ++ (r.value ++ post))
  regroup_file r pre post encodable =
      simp (encode_log_record-header_of env r encodable, append_assoc)

  regroup_header :
      (r : LogRecord) (pre post : Bytes)
      → (pre ++ header_of env r) ++ (r.key ++ (r.value ++ post))
        ≡ pre ++ (header_of env r ++ (r.key ++ (r.value ++ post)))
  regroup_header r pre post = append_assoc pre (header_of env r) (r.key ++ (r.value ++ post))

  pub length-encode_log_record :
      (r : LogRecord)
      → IsEncodable r
      → length (encode_log_record env r) ≡ length (header_of env r) + length r.key + length r.value
  length-encode_log_record r encodable = rw (encode_log_record-header_of env r encodable) (
      omega
        (arith, length-append (header_of env r) (r.key ++ r.value), length-append r.key r.value))

  -- ReadLogRecord at a record's offset reads the header, however far its buffer goes.
  header_buf-encoded :
      (r : LogRecord) (pre post : Bytes)
      → IsEncodable r
      → (tail : Bytes) × (read_n_bytes env
            ((pre ++ header_of env r) ++ (r.key ++ (r.value ++ post)))
            (header_read_size
              (length ((pre ++ header_of env r) ++ (r.key ++ (r.value ++ post))))
              (length pre))
            (length pre)
          ≡ some (header_of env r ++ tail))
  header_buf-encoded r pre post encodable =
      rw (regroup_header r pre post) (header_read r pre (r.key ++ (r.value ++ post)) encodable)

  empty-header_of :
      (r : LogRecord) (tail : Bytes) → IsEncodable r → empty (header_of env r ++ tail) ≡ false
  empty-header_of r tail encodable =
      empty-append (header_of env r) tail (unfold header_of encode_fixed32 in refl)

  -- In a reliable environment, a record that has a key, a type of one byte and at most 2 ^ 31 - 4096
  -- bytes with 15 for the header is read back from the middle of a file, with the size that was
  -- written.
  pub read_log_record-encode_log_record :
      (r : LogRecord) (pre post : Bytes)
      → IsEncodable r
      → read_log_record env (pre ++ (encode_log_record env r ++ post)) (length pre)
        ≡ some (ok (r, length (encode_log_record env r)))
  unfolding read_log_record
  read_log_record-encode_log_record r pre post encodable =
      let (tail, read) = header_buf-encoded r pre post encodable in
      let file = (pre ++ header_of env r) ++ (r.key ++ (r.value ++ post)) in
      rw
        (
          length-encode_log_record r encodable,
          regroup_file r pre post encodable,
          file_size_lem file,
          read,
          empty-header_of r tail encodable,
          read_behind_header-encoded r pre post tail encodable,
        )
        (ground (
          arith,
          length-append (pre ++ header_of env r) (r.key ++ (r.value ++ post)),
          length-append pre (header_of env r),
          length-header_of env r encodable,
        ))

  -- A file that is not empty is read up to its end, where the size is 0.
  pub read_log_record_at_end :
      (file : Bytes)
      → 0 < length file
      → read_log_record env file (length file)
        ≡ some (ok (record { key = []; value = []; type = 0 }, 0))
  unfolding read_log_record
  read_log_record_at_end file h = ground (arith, file_size_lem file)
