-- ===== src/FileTable.antt =====
-- The member `older_files_` of bitdb/db.h: a hash map from file ids to owned data files.
-- `operator[]` on an id that is missing enters a null pointer, so an entry may be null.
use bitdb.Base.{ℕ, ◌≡◌, refl, Option, none, some, List, [], ◌∷◌, arith, ◌==◌, if◌then◌else◌}
use bitdb.DataFile.{DataFile}

abbrev pub FileTable : Type 0
FileTable = List (ℕ × Option DataFile)

-- find; the outer option says whether there is an entry
unfoldable pub find_entry : ℕ → FileTable → Option (Option DataFile)
find_entry id [] = none
find_entry id ((j, f) ∷ t) = if j == id then some f else find_entry id t

-- t[id] = f
unfoldable pub set_entry : ℕ → Option DataFile → FileTable → FileTable
set_entry id f [] = (id, f) ∷ []
set_entry id f ((j, g) ∷ t) = if j == id then (id, f) ∷ t else (j, g) ∷ set_entry id f t

abbrev pub joined : Option (Option DataFile) → Option DataFile
joined none = none
joined (some f) = f

-- The file that an id owns, if any.
abbrev pub file_at : ℕ → FileTable → Option DataFile
file_at id t = joined (find_entry id t)

pub find_entry-set_entry :
    (id j : ℕ) (f : Option DataFile) (t : FileTable)
    → find_entry j (set_entry id f t) ≡ (if id == j then some f else find_entry j t)
unfolding find_entry set_entry
find_entry-set_entry id j f [] = refl
find_entry-set_entry id j f ((i, g) ∷ t) = ground (arith, find_entry-set_entry id j f t)
