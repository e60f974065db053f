-- ===== src/Db/Invariant.antt =====
-- What holds of an open database between two calls, and what it stores for a key.
use bitdb.Base.{
  ℕ, ◌≤◌, ◌<◌, ◌≡◌, refl, ap, ◌∙◌, sym, Option, none, some, [], ◌++◌, length, ◌==◌, if◌then◌else◌,
}
use mathlib.Core.List.{append-nil, append_assoc}
use bitdb.Bytes.{Bytes, c_str}
use bitdb.Env.{Env}
use bitdb.Record.{LogRecord, LogRecordPst, encode_log_record, normal_log_record}
use bitdb.Record.Layout.{IsEncodable}
use bitdb.DataFile.{DataFile}
use bitdb.FileTable.{FileTable, find_entry, joined}
use bitdb.Index.{Indexer}
use bitdb.Db.{Db}

-- The open file of an id.
abbrev pub file_of : Option DataFile → FileTable → ℕ → Option DataFile
file_of none older fid = joined (find_entry fid older)
file_of (some active) older fid =
    if fid == active.file_id then some active else joined (find_entry fid older)

module _ {Index : Type 0} where
  -- The active file is written at its end, and ids are used once.
  pub record IsValid (db : Db Index) : Type 0 where
    pub at_end : (f : DataFile) → db.active_file ≡ some f → f.write_off ≡ length f.contents
    pub active_below : (f : DataFile) → db.active_file ≡ some f → f.file_id < db.next_file_id
    pub active_apart :
        (f : DataFile) → db.active_file ≡ some f → find_entry f.file_id db.older_files ≡ none
    pub fresh : (i : ℕ) → db.next_file_id ≤ i → find_entry i db.older_files ≡ none

  -- Every open file is still open, with more bytes behind those it had.
  abbrev pub AllGrown : Db Index → Db Index → Type 0
  AllGrown db db' =
      (fid : ℕ) (f : DataFile)
      → file_of db.active_file db.older_files fid ≡ some f
      → (g : DataFile) × (more : Bytes) × (file_of db'.active_file db'.older_files fid ≡ some g)
        × (g.contents ≡ f.contents ++ more)

  -- Only the files change, and they grow.
  pub record Grows (db db' : Db Index) : Type 0 where
    pub same_index : db'.index ≡ db.index
    pub same_options : db'.options ≡ db.options
    pub same_txn_id : db'.txn_id ≡ db.txn_id
    pub same_merging : db'.is_merging ≡ db.is_merging
    pub grown : AllGrown db db'

  pub Grows-refl : (db : Db Index) → Grows db db
  Grows-refl db = record {
    same_index = refl;
    same_options = refl;
    same_txn_id = refl;
    same_merging = refl;
    grown = λ fid f h. (f, [], h, sym (append-nil f.contents));
  }

  pub Grows-trans : {a b c : Db Index} → Grows a b → Grows b c → Grows a c
  Grows-trans p q = record {
    same_index = q.same_index ∙ p.same_index;
    same_options = q.same_options ∙ p.same_options;
    same_txn_id = q.same_txn_id ∙ p.same_txn_id;
    same_merging = q.same_merging ∙ p.same_merging;
    grown = λ fid f h.
        let (g, more, at_g, eq_g) = p.grown fid f h in
        let (k, tail, at_k, eq_k) = q.grown fid g at_g in
        (
          k,
          more ++ tail,
          at_k,
          eq_k ∙ ap (λ t. t ++ tail) eq_g ∙ append_assoc f.contents more tail,
        );
  }

  -- The record that a position of the index names.
  pub record Stored (env : Env) (db : Db Index) (pst : LogRecordPst) (r : LogRecord) : Type 0 where
    pub file : DataFile
    pub active : DataFile
    pub pre : Bytes
    pub post : Bytes
    pub has_active : db.active_file ≡ some active
    pub at_file : file_of db.active_file db.older_files pst.fid ≡ some file
    pub layout : file.contents ≡ pre ++ (encode_log_record env r ++ post)
    pub at_offset : pst.offset ≡ length pre
    pub encodable : IsEncodable r

  -- What an index entry says of the value of its key.
  abbrev pub Agrees : Env → Db Index → Option LogRecordPst → Option Bytes → Type 0
  Agrees env db none none = Unit
  Agrees env db none (some v) = ⊥
  Agrees env db (some p) none = ⊥
  Agrees env db (some p) (some v) =
      (r : LogRecord) × Stored env db p r × (r.type ≡ normal_log_record) × (r.value ≡ v)

  -- The database stores the map `m`; keys count up to their first null byte.
  pub record Models (env : Env) (ix : Indexer Index) (db : Db Index) (m : Bytes → Option Bytes)
      : Type 0 where
    pub valid : IsValid db
    pub entries : (k : Bytes) → Agrees env db (ix.get db.index k) (m (c_str k))

  -- A stored record stays stored while files grow.
  Stored-AllGrown :
      {env : Env} {db db' : Db Index} {pst : LogRecordPst} {r : LogRecord} {a : DataFile}
      → AllGrown db db'
      → db'.active_file ≡ some a
      → Stored env db pst r
      → Stored env db' pst r
  Stored-AllGrown {env} {pst = pst} {r = r} {a = a} g has s =
      let (file, more, at_file, contents) = g pst.fid s.file s.at_file in
      record {
        file = file;
        active = a;
        pre = s.pre;
        post = s.post ++ more;
        has_active = has;
        at_file = at_file;
        layout =
            contents
            ∙ ap (λ t. t ++ more) s.layout
            ∙ append_assoc s.pre (encode_log_record env r ++ s.post) more
            ∙ ap (λ t. s.pre ++ t) (append_assoc (encode_log_record env r) s.post more);
        at_offset = s.at_offset;
        encodable = s.encodable;
      }

  pub Agrees-AllGrown :
      (env : Env) (db db' : Db Index) {a : DataFile}
      → AllGrown db db'
      → db'.active_file ≡ some a
      → (p : Option LogRecordPst) (v : Option Bytes) → Agrees env db p v
      → Agrees env db' p v
  Agrees-AllGrown env db db' g has none none h = h
  Agrees-AllGrown env db db' g has none (some v) h = h
  Agrees-AllGrown env db db' g has (some p) none h = h
  Agrees-AllGrown env db db' g has (some p) (some v) h = (h.0, Stored-AllGrown g has h.1, h.2, h.3)

  pub Agrees-Grows :
      (env : Env) {db db' : Db Index} {a : DataFile}
      → Grows db db'
      → db'.active_file ≡ some a
      → (p : Option LogRecordPst) (v : Option Bytes) → Agrees env db p v
      → Agrees env db' p v
  Agrees-Grows env {db} {db'} g has p v h = Agrees-AllGrown env db db' g.grown has p v h
