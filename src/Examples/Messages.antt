-- ===== src/Examples/Messages.antt =====
-- Messages at concrete inputs.
use bitdb.Base.{◌<◌, ◌^◌, ◌≡◌, arith, some, [], ◌∷◌, length}
use bitdb.Bytes.{Bytes}
use bitdb.Codec.{Serializer, string, str, serializer_of, new_serializer}
use bitdb.Codec.Laws.{string-IsLawful}
use bitdb.Codec.Protocol.{append_entries_args}
use bitdb.Codec.Protocol.RoundTrip.{append_entries_args_arrive}
use bitdb.Raft.{LogEntry, AppendEntriesArgs}

abbrev blank : LogEntry Bytes
blank = record { cmd = []; term = 0 }

abbrev no_args : AppendEntriesArgs Bytes
no_args = record {
  term = 0;
  leader_id = 0;
  prev_log_index = 0;
  prev_log_term = 0;
  entries = [];
  leader_commit = 0;
}

abbrev args : AppendEntriesArgs Bytes
args = record {
  term = 3;
  leader_id = 1;
  prev_log_index = 4;
  prev_log_term = 2;
  entries = record { cmd = b'x' ∷ []; term = 3 } ∷ record { cmd = []; term = 3 } ∷ [];
  leader_commit = 4;
}

append_entries_args_arrive_example :
    (s : Serializer) × ((append_entries_args blank string).deserialize no_args
        (serializer_of (str ((append_entries_args blank string).serialize args new_serializer)))
      ≡ some (args, s))
append_entries_args_arrive_example =
    append_entries_args_arrive string (λ value. length value < 2 ^ 64) string-IsLawful blank args
      no_args
      (
        omega arith,
        omega arith,
        omega arith,
        omega arith,
        (omega arith, ((omega arith, omega arith), ((omega arith, omega arith), tt))),
        omega arith,
      )
