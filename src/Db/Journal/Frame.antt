-- ===== src/Db/Journal/Frame.antt =====
-- DB::LoadIndexFromDataFiles in bitdb/db.cpp: the records of the log change nothing of the database
-- but its index.
use bitdb.Base.{ℕ, ◌+◌, ◌%◌, ◌^◌, ◌≡◌, ap, ◌∙◌, some, List, [], ◌∷◌, length, arith}
use bitdb.Status.{ok}
use bitdb.Bytes.{Bytes}
use bitdb.Env.{Env}
use bitdb.Record.{LogRecord, LogRecordPst, LogRecordType}
use bitdb.Txn.{TxnRecord}
use bitdb.Index.{Indexer}
use bitdb.Action.{bind-eq-ok, gets, ◌>>=◌, ◌>>◌, modify}
use bitdb.Db.Refine.{with_index}
use bitdb.Db.Load.{Loading, load_record, update_index, update_all, see_txn_id, set_txn_records}
use bitdb.Db.Load.Replay.{Entry, record_of, bytes_of, replay}

module _ {Index : Type 0} where
  abbrev pub Framed : Loading Index → Loading Index → Type 0
  Framed s s' = s'.db ≡ with_index s.db s'.db.index

  pub Framed-trans : (a b c : Loading Index) → Framed a b → Framed b c → Framed a c
  unfolding with_index
  Framed-trans a b c p q = q ∙ ap (λ db. with_index db c.db.index) p

  module _ (env : Env) (ix : Indexer Index) where
    update_index-Framed :
        (key : Bytes) (type : LogRecordType) (p : LogRecordPst) (s s' : Loading Index)
        → update_index env ix key type p s ≡ some (ok tt, s')
        → Framed s s'
    unfolding update_index with_index
    update_index-Framed key type p s s' run = ground (arith, run)

    update_all-Framed :
        (ts : List TxnRecord) (s s' : Loading Index)
        → update_all env ix ts s ≡ some (ok tt, s')
        → Framed s s'
    unfolding update_all with_index
    update_all-Framed [] s s' run = ground (arith, run)
    update_all-Framed (t ∷ ts) s s' run =
        let (done, s1, first, rest) =
          bind-eq-ok (update_index env ix t.log_record.key t.log_record.type t.pst)
            (λ done. update_all env ix ts) s tt s' run in
        Framed-trans s s1 s'
          (update_index-Framed t.log_record.key t.log_record.type t.pst s s1 first)
          (update_all-Framed ts s1 s' rest)

    finish-Framed :
        (t : ℕ) (s s' : Loading Index)
        → (gets (λ s. s.txn_records (t % 2 ^ 32)) >>= λ records.
              update_all env ix records
              >> modify (λ s. record s { txn_records = set_txn_records t [] s.txn_records }))
            s
          ≡ some (ok tt, s')
        → Framed s s'
    unfolding with_index
    finish-Framed t s s' run =
        let (done, s1, first, rest) =
          bind-eq-ok (update_all env ix (s.txn_records (t % 2 ^ 32)))
            (λ done. modify (λ s. record s { txn_records = set_txn_records t [] s.txn_records })) s
            tt s' run in
        Framed-trans s s1 s' (update_all-Framed (s.txn_records (t % 2 ^ 32)) s s1 first)
          (ground (arith, rest))

    load_record-Framed :
        (key : Bytes) (t : ℕ) (r : LogRecord) (p : LogRecordPst) (s s' : Loading Index)
        → load_record env ix key t r p s ≡ some (ok tt, s')
        → Framed s s'
    unfolding load_record with_index
    load_record-Framed key t r p s s' run =
        ground (arith, run, update_index-Framed key r.type p s s', finish-Framed t s s')

    pub replay-Framed :
        (es : List Entry) (fid offset : ℕ) (s s' : Loading Index)
        → replay env ix fid offset es s ≡ some (ok tt, s')
        → Framed s s'
    unfolding replay with_index see_txn_id
    replay-Framed [] fid offset s s' run = ground (arith, run)
    replay-Framed (e ∷ es) fid offset s s' run =
        let p : LogRecordPst = record { fid = fid; offset = offset } in
        let (done, s1, first, rest) =
          bind-eq-ok (load_record env ix e.key e.txn_id (record_of e) p)
            (λ done.
              modify (see_txn_id e.txn_id)
              >> replay env ix fid (offset + length (bytes_of env e)) es)
            s tt s' run in
        let seen : Framed s1 (see_txn_id e.txn_id s1) = ground arith in
        Framed-trans s s1 s' (load_record-Framed e.key e.txn_id (record_of e) p s s1 first) (
          Framed-trans s1 (see_txn_id e.txn_id s1) s' seen (
            replay-Framed es fid (offset + length (bytes_of env e)) (see_txn_id e.txn_id s1) s'
              rest))
