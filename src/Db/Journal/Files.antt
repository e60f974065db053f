-- ===== src/Db/Journal/Files.antt =====
-- bitdb/db.cpp: the ids of the data files rise, and each file holds its entries.
use bitdb.Base.{
  ℕ, suc, ◌≤◌, ◌<◌, ◌≡◌, refl, sym, ◌∙◌, Bool-cases, inl, inr, Option, none, some, List, [], ◌∷◌,
  ◌++◌, arith, ◌==◌,
}
use bitdb.Env.{Env}
use bitdb.DataFile.{DataFile}
use bitdb.FileTable.{FileTable, find_entry, set_entry}
use bitdb.Db.Load.Replay.{Entry, log_bytes}
use bitdb.Db.Journal.{FileLog, Hold, Ascending}

-- A new file behind the others.
pub Ascending-append :
    (low high : ℕ) (ls : List FileLog) (es : List Entry)
    → Ascending low high ls
    → Ascending low (suc high) (ls ++ ((high, es) ∷ []))
Ascending-append low high [] es h = (h, omega arith)
Ascending-append low high ((fid, fs) ∷ ls) es h = (h.0, Ascending-append (suc fid) high ls es h.1)

-- Other entries in the last file.
pub Ascending-same :
    (low high fid : ℕ) (ls : List FileLog) (es fs : List Entry)
    → Ascending low high (ls ++ ((fid, es) ∷ []))
    → Ascending low high (ls ++ ((fid, fs) ∷ []))
Ascending-same low high fid [] es fs h = h
Ascending-same low high fid ((g, gs) ∷ ls) es fs h =
    (h.0, Ascending-same (suc g) high fid ls es fs h.1)

-- The files before the last have ids below it.
pub Ascending-init :
    (low high fid : ℕ) (ls : List FileLog) (es : List Entry)
    → Ascending low high (ls ++ ((fid, es) ∷ []))
    → Ascending low fid ls × (fid < high)
Ascending-init low high fid [] es h = (h.0, h.1)
Ascending-init low high fid ((g, gs) ∷ ls) es h =
    let (before, below) = Ascending-init (suc g) high fid ls es h.1 in ((h.0, before), below)

pub Ascending-le : (low high : ℕ) (ls : List FileLog) → Ascending low high ls → low ≤ high
Ascending-le low high [] h = h
Ascending-le low high ((fid, es) ∷ ls) h = omega (arith, h.0, Ascending-le (suc fid) high ls h.1)

-- An id that is new is entered at the end.
pub set_entry-new :
    (id : ℕ) (f : Option DataFile) (t : FileTable)
    → find_entry id t ≡ none
    → set_entry id f t ≡ t ++ ((id, f) ∷ [])
unfolding find_entry set_entry
set_entry-new id f [] h = refl
set_entry-new id f ((j, g) ∷ t) h = ground (arith, h, set_entry-new id f t)

module _ (env : Env) where
  pub Hold-append :
      (t : FileTable) (ls : List FileLog) (fid : ℕ) (f : DataFile) (es : List Entry)
      → Hold env t ls
      → f.contents ≡ log_bytes env es
      → Hold env (t ++ ((fid, some f) ∷ [])) (ls ++ ((fid, es) ∷ []))
  Hold-append [] [] fid f es h same = (refl, same, tt)
  Hold-append [] (l ∷ ls) fid f es h same = absurd h
  Hold-append (x ∷ t) [] fid f es h same = absurd h
  Hold-append ((id, none) ∷ t) (l ∷ ls) fid f es h same = absurd h
  Hold-append ((id, some g) ∷ t) ((gid, gs) ∷ ls) fid f es h same =
      (h.0, h.1, Hold-append t ls fid f es h.2 same)

  -- A table with these files has no entry for an id outside their range.
  pub find_entry-high :
      (t : FileTable) (ls : List FileLog) (low high id : ℕ)
      → Hold env t ls
      → Ascending low high ls
      → high ≤ id
      → find_entry id t ≡ none
  unfolding find_entry
  find_entry-high [] [] low high id h up above = refl
  find_entry-high [] (l ∷ ls) low high id h up above = absurd h
  find_entry-high (x ∷ t) [] low high id h up above = absurd h
  find_entry-high ((j, none) ∷ t) (l ∷ ls) low high id h up above = absurd h
  find_entry-high ((j, some g) ∷ t) ((fid, es) ∷ ls) low high id h up above = ground (
    arith,
    h.0,
    Ascending-le (suc fid) high ls up.1,
    find_entry-high t ls (suc fid) high id h.2 up.1 above,
  )

  -- Two tables of the same files.
  pub find_entry-same :
      (t u : FileTable) (ls : List FileLog) (id : ℕ) (f : DataFile)
      → Hold env t ls
      → Hold env u ls
      → find_entry id t ≡ some (some f)
      → (g : DataFile) × (find_entry id u ≡ some (some g)) × (g.contents ≡ f.contents)
  unfolding find_entry
  find_entry-same [] u ls id f h k found = absurd (ground arith)
  find_entry-same (x ∷ t) u [] id f h k found = absurd h
  find_entry-same (x ∷ t) [] (l ∷ ls) id f h k found = absurd k
  find_entry-same ((i, none) ∷ t) (y ∷ u) (l ∷ ls) id f h k found = absurd h
  find_entry-same ((i, some a) ∷ t) ((j, none) ∷ u) (l ∷ ls) id f h k found = absurd k
  find_entry-same ((i, some a) ∷ t) ((j, some b) ∷ u) ((fid, es) ∷ ls) id f h k found =
      elim (Bool-cases (i == id)) [
        | inl here ↦
            let same : f ≡ a = ground (arith, found, here) in
            (b, ground (arith, h.0, k.0, here), rw same (k.1 ∙ sym h.1))
        | inr other ↦
            let (g, at_g, same) =
              find_entry-same t u ls id f h.2 k.2 (ground (arith, found, other)) in
            (g, ground (arith, h.0, k.0, other, at_g), same)
      ]
