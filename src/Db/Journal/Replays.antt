-- ===== src/Db/Journal/Replays.antt =====
-- DB::Put and DB::Delete of bitdb/db.cpp: what their records do to an index that is loaded.
use bitdb.Base.{
  false, ◌+◌, ◌^◌, ◌≤◌, ◌<◌, ◌≡◌, ap, ◌∙◌, Option, none, some, [], ◌++◌, length, if◌then◌else◌,
  arith, length-append, List,
}
use bitdb.Status.{ok}
use bitdb.Bytes.{Bytes, c_str, bytes_eq}
use bitdb.Bytes.Order.{length-c_str, c_str-c_str}
use bitdb.Coding.{encode_varint64}
use bitdb.Env.{Env}
use bitdb.Record.{LogRecordPst, LogRecordType, deleted_log_record, normal_log_record}
use bitdb.Record.Layout.{encode_log_record-header_of, length-header_of, header_of}
use bitdb.Index.{Indexer, IsMap}
use bitdb.Db.{Db, Options}
use bitdb.Db.Invariant.{Models}
use bitdb.Db.Refine.{with_index, plain_record-IsEncodable, zero_code}
use bitdb.Db.Load.{Loading, load_record, update_index, see_txn_id}
use bitdb.Db.Load.Replay.{Entry, record_of, bytes_of, IsLoggable}
use bitdb.Db.Journal.{FileLog, Journal, logs, IsJournal, Extends, replay_all}

-- The record of a call, which belongs to no transaction.
abbrev pub plain_entry : Bytes → Bytes → LogRecordType → Entry
plain_entry key value type = record { key = c_str key; txn_id = 0; value = value; type = type }

pub plain_entry-IsLoggable :
    (key value : Bytes) (type : LogRecordType)
    → length key + length value + 16 + 4096 ≤ 2 ^ 31
    → type < 256
    → IsLoggable (plain_entry key value type)
plain_entry-IsLoggable key value type fits byte = record {
  encodable = plain_record-IsEncodable key value type fits byte;
  small_id = omega arith;
}

-- A header, the id and the strings.
pub length-plain_entry :
    (env : Env) (key value : Bytes) (type : LogRecordType)
    → length key + length value + 16 + 4096 ≤ 2 ^ 31
    → type < 256
    → length (bytes_of env (plain_entry key value type)) ≤ length key + length value + 16
length-plain_entry env key value type fits byte =
    let e = plain_entry key value type in
    let loggable = plain_entry-IsLoggable key value type fits byte in
    let (low, high) = length-header_of env (record_of e) loggable.encodable in
    rw
      (
        encode_log_record-header_of env (record_of e) loggable.encodable,
        length-append (header_of env (record_of e)) ((record_of e).key ++ value),
        length-append (encode_varint64 0 ++ c_str key) value,
        length-append (encode_varint64 0) (c_str key),
      )
      (omega (arith, low, high, length-c_str key, ap length zero_code))

pub IsJournal-with_index :
    {Index : Type 0} (env : Env) (db : Db Index) (i : Index) (j : Journal)
    → IsJournal env db j
    → IsJournal env (with_index db i) j
unfolding with_index
IsJournal-with_index env db i j h = record {
  older = h.older;
  active = h.active;
  active_last = h.active_last;
  ascending = h.ascending;
  files = h.files;
}

module _ {Index : Type 0} (env : Env) (ix : Indexer Index) where
  -- Loading these files makes an empty index answer like `G`.
  abbrev pub Replays : List FileLog → (Bytes → Option LogRecordPst) → Type 0
  Replays ls G =
      (s : Loading Index)
      → ((k : Bytes) → ix.get s.db.index k ≡ none)
      → (s' : Loading Index) × (replay_all env ix ls s ≡ some (ok tt, s'))
        × ((k : Bytes) → ix.get s'.db.index k ≡ G k)

  -- A database with these options that stores `m`, also in its files, and is not being merged.
  pub record IsDurable (options : Options) (m : Bytes → Option Bytes) (db : Db Index) : Type 0 where
    pub models : Models env ix db m
    pub journal : Journal
    pub written : IsJournal env db journal
    pub replays : Replays (logs journal) (λ k. ix.get db.index k)
    pub same_options : db.options ≡ options
    pub idle : db.is_merging ≡ false

  plain_seen : (s : Loading Index) → see_txn_id 0 s ≡ s
  unfolding see_txn_id
  plain_seen s = ground arith

  module _ (lawful : IsMap ix) where
    load_put :
        (key value : Bytes) (p : LogRecordPst) (s : Loading Index)
        → load_record env ix (c_str key) 0 (record_of (plain_entry key value normal_log_record)) p s
          ≡ some (ok tt, record s { db = with_index s.db (ix.put s.db.index (c_str key) p).0 })
    unfolding load_record update_index with_index
    load_put key value p s = ground (arith, lawful.put_succeeds s.db.index (c_str key) p)

    load_delete :
        (key : Bytes) (p q : LogRecordPst) (s : Loading Index)
        → ix.get s.db.index (c_str key) ≡ some q
        → load_record env ix (c_str key) 0 (record_of (plain_entry key [] deleted_log_record)) p s
          ≡ some (ok tt, record s { db = with_index s.db (ix.delete s.db.index (c_str key)).0 })
    unfolding load_record update_index with_index
    load_delete key p q s found = ground (arith, lawful.delete_found s.db.index (c_str key), found)

    pub Replays-put :
        (before after : List FileLog) (G : Bytes → Option LogRecordPst) (key value : Bytes)
        (p : LogRecordPst) (i : Index)
        → Replays before G
        → Extends env ix before after (plain_entry key value normal_log_record) p
        → ((k : Bytes) → ix.get i k ≡ G k)
        → Replays after (λ k. ix.get (ix.put i key p).0 k)
    unfolding with_index
    Replays-put before after G key value p i replays extends same s fresh =
        let (s1, run, got) = replays s fresh in
        let s2 : Loading Index = record s1 {
          db = with_index s1.db (ix.put s1.db.index (c_str key) p).0;
        } in
        (
          s2,
          extends s s1 s2 run (load_put key value p s1) ∙ ap (λ t. some (ok tt, t)) (plain_seen s2),
          λ k. ground (
            arith,
            lawful.get-put s1.db.index (c_str key) k p,
            lawful.get-put i key k p,
            c_str-c_str key,
            got k,
            same k,
          ),
        )

    pub Replays-delete :
        (before after : List FileLog) (G : Bytes → Option LogRecordPst) (key : Bytes)
        (p q : LogRecordPst) (H : Bytes → Option LogRecordPst)
        → Replays before G
        → Extends env ix before after (plain_entry key [] deleted_log_record) p
        → G (c_str key) ≡ some q
        → ((k : Bytes) → H k ≡ (if bytes_eq (c_str key) (c_str k) then none else G k))
        → Replays after H
    unfolding with_index
    Replays-delete before after G key p q H replays extends found same s fresh =
        let (s1, run, got) = replays s fresh in
        let i = (ix.delete s1.db.index (c_str key)).0 in
        let s2 : Loading Index = record s1 { db = with_index s1.db i } in
        (
          s2,
          extends s s1 s2 run (load_delete key p q s1 (got (c_str key) ∙ found))
              ∙ ap (λ t. some (ok tt, t)) (plain_seen s2),
          λ k.
              ground (
                arith,
                lawful.get-delete s1.db.index (c_str key) k,
                c_str-c_str key,
                got k,
                same k,
              ),
        )
