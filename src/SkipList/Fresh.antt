-- ===== src/SkipList/Fresh.antt =====
-- bitdb/ds/skiplist.h: a list that was just constructed.
use bitdb.Base.{ℕ, refl, [], arith}
use bitdb.SkipList.{Order, max_level, new_node, new_list}
use bitdb.SkipList.Valid.{IsValid}

module _ {K V : Type 0} (o : Order K) where
  pub new_list-IsValid :
      (key : K) (value : V) (draws : ℕ → ℕ) → IsValid o (new_list key value draws) []
  unfolding new_list
  new_list-IsValid key value draws = record {
    root = record { at = 0; key = key; value = value; level = max_level };
    root_at = refl;
    root_level = refl;
    segment = (
      record {
        node = new_node max_level key value;
        stored = refl;
        key = refl;
        value = refl;
        level = refl;
        next = λ i lt. refl;
      },
      tt,
    );
    distinct = (tt, tt);
    young = (omega arith, tt);
    levels = tt;
    level_pos = omega arith;
    level_max = omega arith;
    sorted = tt;
    size = refl;
    counted = omega arith;
  }
