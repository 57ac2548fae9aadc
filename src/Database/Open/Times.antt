-- ===== src/Database/Open/Times.antt =====
-- What the migration of src/common/db.rs does to the rows of an older file, however often it was
-- broken off before.
use mimeclip.Base.{
  ◌≡◌, refl, ◌∙◌, Bool, true, false, Option, none, some, List, [], map, if◌then◌else◌,
}
use mimeclip.Base.Bytes.{Text}
use mimeclip.Database.{EntryRow}
use mimeclip.Database.Open.{
  StoredRow, EntriesTable, coalesce, has_column, created_at_column, last_used_at_column,
  timestamp_column, created_from_timestamp, last_used_from_timestamp, created_from_now,
  last_used_from_created,
}

-- Everything but the times.
unfoldable pub untimed : StoredRow → EntryRow
untimed r = record {
  id = r.id;
  hash = r.hash;
  kind = r.kind;
  label = r.label;
  preview = r.preview;
  size = r.size;
  created_at = [];
  last_used_at = [];
}

-- The value is there, and only where the column is.
unfoldable pub cell : List Text → Text → Option Text → Option Text
cell columns name v = if has_column name columns then v else none

unfoldable pub visible : List Text → StoredRow → StoredRow
visible columns r = record r {
  created_at = cell columns created_at_column r.created_at;
  last_used_at = cell columns last_used_at_column r.last_used_at;
  timestamp = cell columns timestamp_column r.timestamp;
}

-- The rows of the file with the times that they have.
unfoldable pub rows_in : Option EntriesTable → List StoredRow
rows_in none = []
rows_in (some t) = map (visible t.columns) t.rows

-- What the row `new` keeps of `old`: a time that is there stays, one that is filled in comes from
-- `timestamp` first, and a time of use otherwise from the creation.
pub record IsFrom (old new : StoredRow) : Type 0 where
  pub same : untimed new ≡ untimed old
  pub timestamp : new.timestamp ≡ old.timestamp
  pub created_kept : (t : Text) → old.created_at ≡ some t → new.created_at ≡ some t
  pub created_filled :
      (t u : Text)
      → coalesce old.created_at old.timestamp ≡ some t
      → new.created_at ≡ some u
      → u ≡ t
  pub used_kept : (t : Text) → old.last_used_at ≡ some t → new.last_used_at ≡ some t
  pub used_filled :
      (t u : Text)
      → coalesce old.last_used_at old.timestamp ≡ some t
      → new.last_used_at ≡ some u
      → u ≡ t
  pub used_created :
      (u : Text)
      → coalesce old.last_used_at old.timestamp ≡ none
      → new.last_used_at ≡ some u
      → new.created_at ≡ some u

kept_value : (a b : Option Text) (t u : Text) → coalesce a b ≡ some t → a ≡ some u → u ≡ t
kept_value none b t u h k = cc
kept_value (some a) b t u h k = cc

not_kept : {A : Type 0} (a b : Option Text) (u : Text) → coalesce a b ≡ none → a ≡ some u → A
not_kept none b u h k = cc
not_kept (some a) b u h k = cc

pub IsFrom-refl : (r : StoredRow) → IsFrom r r
IsFrom-refl r = record {
  same = refl;
  timestamp = refl;
  created_kept = λ t h. h;
  created_filled = kept_value r.created_at r.timestamp;
  used_kept = λ t h. h;
  used_filled = kept_value r.last_used_at r.timestamp;
  used_created = λ u h k. not_kept r.last_used_at r.timestamp u h k;
}

filled_trans :
    (a b c ts : Option Text) (t u : Text)
    → ((v : Text) → a ≡ some v → b ≡ some v)
    → ((v : Text) → b ≡ some v → c ≡ some v)
    → ((v w : Text) → coalesce a ts ≡ some v → b ≡ some w → w ≡ v)
    → ((v w : Text) → coalesce b ts ≡ some v → c ≡ some w → w ≡ v)
    → coalesce a ts ≡ some t
    → c ≡ some u
    → u ≡ t
filled_trans none none c ts t u ab bc fab fbc h k = fbc t u h k
filled_trans none (some b) c ts t u ab bc fab fbc h k =
    let p = bc b refl in let q = fab t b h refl in cc
filled_trans (some a) b c ts t u ab bc fab fbc h k = let p = bc a (ab a refl) in cc

used_trans :
    (a b c cb cc' ts : Option Text) (u : Text)
    → ((v : Text) → coalesce a ts ≡ none → b ≡ some v → cb ≡ some v)
    → ((v : Text) → coalesce b ts ≡ none → c ≡ some v → cc' ≡ some v)
    → ((v : Text) → b ≡ some v → c ≡ some v)
    → ((v : Text) → cb ≡ some v → cc' ≡ some v)
    → coalesce a ts ≡ none
    → c ≡ some u
    → cc' ≡ some u
used_trans (some a) b c cb cc' ts u fab fbc kb kc h k = cc
used_trans none b c cb cc' (some t) u fab fbc kb kc h k = cc
used_trans none none c cb cc' none u fab fbc kb kc h k = fbc u refl k
used_trans none (some v) c cb cc' none u fab fbc kb kc h k =
    let p = kb v refl in let q = kc v (fab v refl refl) in cc

pub IsFrom-trans : (a b c : StoredRow) → IsFrom a b → IsFrom b c → IsFrom a c
IsFrom-trans a b c f g = record {
  same = g.same ∙ f.same;
  timestamp = g.timestamp ∙ f.timestamp;
  created_kept = λ t h. g.created_kept t (f.created_kept t h);
  created_filled = λ t u.
      filled_trans a.created_at b.created_at c.created_at a.timestamp t u f.created_kept
        g.created_kept f.created_filled (λ v w h. g.created_filled v w (rw f.timestamp h));
  used_kept = λ t h. g.used_kept t (f.used_kept t h);
  used_filled = λ t u.
      filled_trans a.last_used_at b.last_used_at c.last_used_at a.timestamp t u f.used_kept
        g.used_kept f.used_filled (λ v w h. g.used_filled v w (rw f.timestamp h));
  used_created = λ u.
      used_trans a.last_used_at b.last_used_at c.last_used_at b.created_at c.created_at a.timestamp
        u f.used_created (λ v h. g.used_created v (rw f.timestamp h)) g.used_kept g.created_kept;
}

-- A change of the time of creation, or of use.
created-IsFrom :
    (r : StoredRow) (v : Option Text)
    → ((t : Text) → r.created_at ≡ some t → v ≡ some t)
    → ((t u : Text) → coalesce r.created_at r.timestamp ≡ some t → v ≡ some u → u ≡ t)
    → IsFrom r (record r { created_at = v })
unfolding untimed
created-IsFrom r v kept filled = record {
  same = refl;
  timestamp = refl;
  created_kept = kept;
  created_filled = filled;
  used_kept = λ t k. k;
  used_filled = kept_value _ _;
  used_created = λ u k l. not_kept r.last_used_at r.timestamp u k l;
}

used-IsFrom :
    (r : StoredRow) (v : Option Text)
    → ((t : Text) → r.last_used_at ≡ some t → v ≡ some t)
    → ((t u : Text) → coalesce r.last_used_at r.timestamp ≡ some t → v ≡ some u → u ≡ t)
    → ((u : Text) → coalesce r.last_used_at r.timestamp ≡ none → v ≡ some u → r.created_at ≡ some u)
    → IsFrom r (record r { last_used_at = v })
unfolding untimed
used-IsFrom r v kept filled created = record {
  same = refl;
  timestamp = refl;
  created_kept = λ t k. k;
  created_filled = kept_value _ _;
  used_kept = kept;
  used_filled = filled;
  used_created = created;
}

abbrev seen : Bool → Option Text → Option Text
seen b v = if b then v else none

kept_lem :
    (b : Bool) (v w : Option Text) (t : Text) → seen b v ≡ some t → seen b (coalesce v w) ≡ some t
kept_lem true none w t h = cc
kept_lem true (some v) w t h = h
kept_lem false v w t h = h

-- COALESCE(v, w, …) is `v`, or else `w`.
filled_lem :
    (b c : Bool) (v w x : Option Text) (t u : Text)
    → b ≡ true
    → c ≡ true
    → coalesce (seen b v) (seen c w) ≡ some t
    → seen b (coalesce v (coalesce w x)) ≡ some u
    → u ≡ t
filled_lem false c v w x t u p q h k = cc
filled_lem true false v w x t u p q h k = cc
filled_lem true true none none x t u p q h k = cc
filled_lem true true none (some w) x t u p q h k = cc
filled_lem true true (some v) w x t u p q h k = cc

-- Without the column `timestamp`
filled_alone :
    (b c : Bool) (v w x : Option Text) (t u : Text)
    → b ≡ true
    → c ≡ false
    → coalesce (seen b v) (seen c w) ≡ some t
    → seen b (coalesce v x) ≡ some u
    → u ≡ t
filled_alone false c v w x t u p q h k = cc
filled_alone true true v w x t u p q h k = cc
filled_alone true false none w x t u p q h k = cc
filled_alone true false (some v) w x t u p q h k = cc

-- A time of use that is filled in without a `timestamp` is that of the creation, which is there.
used_lem :
    (b c e : Bool) (v w x : Option Text) (y u z : Text)
    → b ≡ true
    → c ≡ true
    → e ≡ true
    → x ≡ some z
    → coalesce (seen b v) (seen c w) ≡ none
    → seen b (coalesce v (coalesce w (coalesce x (some y)))) ≡ some u
    → seen e x ≡ some u
used_lem false c e v w x y u z p q r a h k = cc
used_lem true false e v w x y u z p q r a h k = cc
used_lem true true false v w x y u z p q r a h k = cc
used_lem true true true (some v) w x y u z p q r a h k = cc
used_lem true true true none (some w) x y u z p q r a h k = cc
used_lem true true true none none none y u z p q r a h k = cc
used_lem true true true none none (some x) y u z p q r a h k = k

used_alone :
    (b c e : Bool) (v w x : Option Text) (y u z : Text)
    → b ≡ true
    → c ≡ false
    → e ≡ true
    → x ≡ some z
    → coalesce (seen b v) (seen c w) ≡ none
    → seen b (coalesce v (coalesce x (some y))) ≡ some u
    → seen e x ≡ some u
used_alone false c e v w x y u z p q r a h k = cc
used_alone true true e v w x y u z p q r a h k = cc
used_alone true false false v w x y u z p q r a h k = cc
used_alone true false true (some v) w x y u z p q r a h k = cc
used_alone true false true none w none y u z p q r a h k = cc
used_alone true false true none w (some x) y u z p q r a h k = k

-- What the four UPDATE statements do to a row.
module _ (columns : List Text) (r : StoredRow) (now : Text)
    (created : has_column created_at_column columns ≡ true) where
  pub created_from_timestamp-IsFrom :
      has_column timestamp_column columns ≡ true
      → IsFrom (visible columns r) (visible columns (created_from_timestamp now r))
  unfolding visible cell created_from_timestamp
  created_from_timestamp-IsFrom stamped =
      created-IsFrom (visible columns r) _ (kept_lem _ r.created_at _)
        (λ t u. filled_lem _ _ r.created_at r.timestamp _ t u created stamped)

  pub created_from_now-IsFrom :
      has_column timestamp_column columns ≡ false
      → IsFrom (visible columns r) (visible columns (created_from_now now r))
  unfolding visible cell created_from_now
  created_from_now-IsFrom bare =
      created-IsFrom (visible columns r) _ (kept_lem _ r.created_at _)
        (λ t u. filled_alone _ _ r.created_at r.timestamp _ t u created bare)

  module _ (used : has_column last_used_at_column columns ≡ true) (z : Text)
      (there : r.created_at ≡ some z) where
    pub last_used_from_timestamp-IsFrom :
        has_column timestamp_column columns ≡ true
        → IsFrom (visible columns r) (visible columns (last_used_from_timestamp now r))
    unfolding visible cell last_used_from_timestamp
    last_used_from_timestamp-IsFrom stamped =
        used-IsFrom (visible columns r) _ (kept_lem _ r.last_used_at _)
          (λ t u. filled_lem _ _ r.last_used_at r.timestamp _ t u used stamped)
          (λ u.
            used_lem _ _ _ r.last_used_at r.timestamp r.created_at now u z used stamped created
              there)

    pub last_used_from_created-IsFrom :
        has_column timestamp_column columns ≡ false
        → IsFrom (visible columns r) (visible columns (last_used_from_created now r))
    unfolding visible cell last_used_from_created
    last_used_from_created-IsFrom bare =
        used-IsFrom (visible columns r) _ (kept_lem _ r.last_used_at _)
          (λ t u. filled_alone _ _ r.last_used_at r.timestamp _ t u used bare)
          (λ u.
            used_alone _ _ _ r.last_used_at r.timestamp r.created_at now u z used bare created
              there)
