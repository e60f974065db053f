-- ===== src/Db/Load/Transactions.antt =====
-- DB::LoadIndexFromDataFiles in bitdb/db.cpp: what the records of a transaction do to the index.
use std.Path.{fun_ext}
use mathlib.Core.List.{append-nil, append_assoc}
use bitdb.Base.{
  ℕ, ◌+◌, ◌%◌, ◌^◌, ◌≡◌, ◌≢◌, refl, ap, ◌∙◌, sym, ◌⊎◌, inl, inr, true, Option, none, some,
  Bool-cases, ◌==◌, List, [], ◌∷◌, ◌++◌, length, if◌then◌else◌, arith, All,
}
use bitdb.Status.{ok}
use bitdb.Bytes.{Bytes, c_str, bytes_eq}
use bitdb.Env.{Env}
use bitdb.TreeMap.{is_some}
use bitdb.Record.{LogRecordPst, normal_log_record, deleted_log_record, txn_finished_log_record}
use bitdb.Txn.{TxnRecord, k_non_txn_id, k_txn_finished_key}
use bitdb.Index.{Indexer, IsMap}
use bitdb.Db.Load.{
  Loading, load_record, see_txn_id, pending_record, update_all, update_index, set_txn_records,
}
use bitdb.Db.Load.Replay.{log_bytes, replay_append, Entry, record_of, bytes_of, replay}

-- A write of a transaction, which does not finish it.
abbrev pub IsPending : Entry → Type 0
IsPending e = (e.txn_id ≢ k_non_txn_id) × (e.type ≢ txn_finished_log_record)

-- A value that the transaction `t` stores, or a key that it deletes.
abbrev pub IsWriteOf : ℕ → Entry → Type 0
IsWriteOf t e = (e.txn_id ≡ t) × ((e.type ≡ normal_log_record) ⊎ (e.type ≡ deleted_log_record))

-- The record that finishes the transaction `t`.
abbrev pub finish : ℕ → Entry
finish t = record {
  key = k_txn_finished_key;
  txn_id = t;
  value = [];
  type = txn_finished_log_record;
}

module _ {Index : Type 0} (env : Env) (ix : Indexer Index) where
  load_pending :
      (e : Entry) (pst : LogRecordPst) (s : Loading Index)
      → IsPending e
      → load_record env ix e.key e.txn_id (record_of e) pst s
        ≡ some (
          ok tt,
          record s {
            txn_records =
                set_txn_records e.txn_id
                  (s.txn_records (e.txn_id % 2 ^ 32)
                    ++ (pending_record e.key (record_of e) pst ∷ []))
                  s.txn_records;
          },
        )
  unfolding load_record
  load_pending e pst s (in_txn, open_txn) = ground arith

  same_db : (t : ℕ) (s : Loading Index) → (see_txn_id t s).db ≡ s.db
  unfolding see_txn_id
  same_db t s = ground arith

-- What the loop keeps of the writes of a transaction until it is finished.
abbrev pub pendings : Env → ℕ → ℕ → List Entry → List TxnRecord
pendings env fid offset [] = []
pendings env fid offset (e ∷ es) =
    pending_record e.key (record_of e) (record { fid = fid; offset = offset })
    ∷ pendings env fid (offset + length (bytes_of env e)) es

-- What a write leaves of a key: the position of the new value, or nothing.
abbrev pub left_by : TxnRecord → Option LogRecordPst
left_by t = if t.log_record.type == deleted_log_record then none else some t.pst

-- A map behind a write; a key counts up to its first null byte.
abbrev pub tell : TxnRecord → (Bytes → Option LogRecordPst) → Bytes → Option LogRecordPst
tell t m k = if bytes_eq (c_str t.log_record.key) (c_str k) then left_by t else m k

-- A map behind these writes, in their order.
abbrev pub overlay : List TxnRecord → (Bytes → Option LogRecordPst) → Bytes → Option LogRecordPst
overlay [] m = m
overlay (t ∷ ts) m = overlay ts (tell t m)

-- Every key that is deleted is stored where its turn comes: before, or by an earlier write.
abbrev pub AreFound : List TxnRecord → (Bytes → Option LogRecordPst) → Type 0
AreFound [] m = Unit
AreFound (t ∷ ts) m =
    ((t.log_record.type ≢ deleted_log_record) ⊎ (is_some (m t.log_record.key) ≡ true))
    × AreFound ts (tell t m)

module _ {Index : Type 0} (env : Env) (ix : Indexer Index) where
  same_records : (t : ℕ) (s : Loading Index) → (see_txn_id t s).txn_records ≡ s.txn_records
  unfolding see_txn_id
  same_records t s = ground arith

  -- What is kept for the transaction of an entry, once it is kept.
  recorded_now :
      (e : Entry) (t : ℕ) (table : List TxnRecord) (s : Loading Index)
      → e.txn_id ≡ t
      → (see_txn_id e.txn_id
            (record s { txn_records = set_txn_records e.txn_id table s.txn_records })).txn_records
          (t % 2 ^ 32)
        ≡ table
  unfolding see_txn_id set_txn_records
  recorded_now e t table s same = ground (arith, same)

  replay_writes :
      (es : List Entry) (t fid offset : ℕ) (s : Loading Index)
      → t ≢ k_non_txn_id
      → All (IsWriteOf t) es
      → (s' : Loading Index) × (replay env ix fid offset es s ≡ some (ok tt, s'))
        × (s'.db ≡ s.db)
        × (s'.txn_records (t % 2 ^ 32) ≡ s.txn_records (t % 2 ^ 32) ++ pendings env fid offset es)
  unfolding replay
  replay_writes [] t fid offset s in_txn h =
      (s, refl, refl, sym (append-nil (s.txn_records (t % 2 ^ 32))))
  replay_writes (e ∷ es) t fid offset s in_txn (h, rest) =
      let pst : LogRecordPst = record { fid = fid; offset = offset } in
      let table =
        s.txn_records (e.txn_id % 2 ^ 32) ++ (pending_record e.key (record_of e) pst ∷ []) in
      let s1 : Loading Index = record s {
        txn_records = set_txn_records e.txn_id table s.txn_records;
      } in
      let (s2, run, kept, recorded) =
        replay_writes es t fid (offset + length (bytes_of env e)) (see_txn_id e.txn_id s1) in_txn
          rest in
      (
        s2,
        rw (load_pending env ix e pst s (λ z. in_txn (sym h.0 ∙ z), λ z. ground (arith, h.1, z)))
            run,
        kept ∙ same_db env ix e.txn_id s1,
        recorded
            ∙ ap (λ table. table ++ pendings env fid (offset + length (bytes_of env e)) es)
                (recorded_now e t table s h.0)
            ∙ append_assoc (s.txn_records (e.txn_id % 2 ^ 32)) _ _
            ∙ ap (λ i. s.txn_records (i % 2 ^ 32) ++ pendings env fid offset (e ∷ es)) h.0,
      )

  module _ (lawful : IsMap ix) where
    -- One write that is told to the index.
    update_index-tell :
        (t : TxnRecord) (s : Loading Index)
        → (t.log_record.type ≢ deleted_log_record)
          ⊎ (is_some (ix.get s.db.index t.log_record.key) ≡ true)
        → (s' : Loading Index) × (update_index env ix t.log_record.key t.log_record.type t.pst s
            ≡ some (ok tt, s'))
          × (ix.get s'.db.index ≡ tell t (ix.get s.db.index))
    unfolding update_index
    update_index-tell t s found =
        let key = t.log_record.key in
        elim (Bool-cases (t.log_record.type == deleted_log_record)) [
          | inl holds ↦ (
            record s { db = record s.db { index = (ix.delete s.db.index key).0 } },
            ground (arith, holds, found, lawful.delete_found s.db.index key),
            fun_ext (λ k. rw holds (lawful.get-delete s.db.index key k)),
          )
          | inr fails ↦ (
            record s { db = record s.db { index = (ix.put s.db.index key t.pst).0 } },
            ground (arith, fails, lawful.put_succeeds s.db.index key t.pst),
            fun_ext (λ k. rw fails (lawful.get-put s.db.index key k t.pst)),
          )
        ]

    update_all-overlay :
        (ts : List TxnRecord) (s : Loading Index)
        → AreFound ts (ix.get s.db.index)
        → (s' : Loading Index) × (update_all env ix ts s ≡ some (ok tt, s'))
          × (ix.get s'.db.index ≡ overlay ts (ix.get s.db.index))
    unfolding update_all
    update_all-overlay [] s found = (s, refl, refl)
    update_all-overlay (t ∷ ts) s (found, rest) =
        let (s1, told, same) = update_index-tell t s found in
        let (s2, run, got) = update_all-overlay ts s1 (rw same rest) in
        (s2, rw told run, got ∙ ap (overlay ts) same)

    -- The record that finishes a transaction applies what is kept for it, and forgets it.
    load_finish :
        (t : ℕ) (ts : List TxnRecord) (pst : LogRecordPst) (s s1 : Loading Index)
        → t ≢ k_non_txn_id
        → s.txn_records (t % 2 ^ 32) ≡ ts
        → update_all env ix ts s ≡ some (ok tt, s1)
        → load_record env ix k_txn_finished_key t (record_of (finish t)) pst s
          ≡ some (ok tt, record s1 { txn_records = set_txn_records t [] s1.txn_records })
    unfolding load_record
    load_finish t ts pst s s1 in_txn kept run = ground (arith, kept, run)

    replay-finish :
        (t fid offset : ℕ) (ts : List TxnRecord) (s s1 : Loading Index)
        → t ≢ k_non_txn_id
        → s.txn_records (t % 2 ^ 32) ≡ ts
        → update_all env ix ts s ≡ some (ok tt, s1)
        → replay env ix fid offset (finish t ∷ []) s
          ≡ some (
            ok tt,
            see_txn_id t (record s1 { txn_records = set_txn_records t [] s1.txn_records }),
          )
    unfolding replay
    replay-finish t fid offset ts s s1 in_txn kept run =
        rw (load_finish t ts (record { fid = fid; offset = offset }) s s1 in_txn kept run) refl

    cleared : (t : ℕ) (table : ℕ → List TxnRecord) → set_txn_records t [] table (t % 2 ^ 32) ≡ []
    unfolding set_txn_records
    cleared t table = ground arith

    -- With an indexer that is a map: where nothing is kept for a transaction, its writes, values and
    -- deleted keys, and then the record that finishes it tell the index all the writes, in the order
    -- of the log, and nothing else, and nothing is kept for it any more, provided that every key that
    -- is deleted is stored where its turn comes.
    pub replay_finished :
        (es : List Entry) (t fid offset : ℕ) (s : Loading Index)
        → t ≢ k_non_txn_id
        → All (IsWriteOf t) es
        → s.txn_records (t % 2 ^ 32) ≡ []
        → AreFound (pendings env fid offset es) (ix.get s.db.index)
        → (s' : Loading Index) × (replay env ix fid offset (es ++ (finish t ∷ [])) s
            ≡ some (ok tt, s'))
          × (ix.get s'.db.index ≡ overlay (pendings env fid offset es) (ix.get s.db.index))
          × (s'.txn_records (t % 2 ^ 32) ≡ [])
    replay_finished es t fid offset s in_txn writes fresh found =
        let (s1, run, same, kept) = replay_writes es t fid offset s in_txn writes in
        let ts = pendings env fid offset es in
        let (s2, updated, got) = update_all-overlay ts s1 (rw same found) in
        let kept_now : s1.txn_records (t % 2 ^ 32) ≡ ts = kept ∙ ap (λ r. r ++ ts) fresh in
        let s3 : Loading Index = record s2 { txn_records = set_txn_records t [] s2.txn_records } in
        let offset1 = offset + length (log_bytes env es) in
        (
          see_txn_id t s3,
          rw (replay_append env ix es (finish t ∷ []) fid offset s, run)
              (replay-finish t fid offset1 ts s1 s2 in_txn kept_now updated),
          rw (same_db env ix t s3) (got ∙ ap (λ db. overlay ts (ix.get db.index)) same),
          rw (same_records t s3) (cleared t s2.txn_records),
        )
