-- ===== src/Database/Open/Migration.antt =====
-- `init` of src/common/db.rs on a file of any age: what each of its steps does to the rows, whichever
-- of them fails.
use mimeclip.Base.{
  ◌≡◌, refl, sym, subst, Bool, true, false, some, List, [], ◌∷◌, Result, ok, err, ok-injective,
}
use mimeclip.Database.{DbError, Action, pure, ◌>>=◌, continue}
use mimeclip.Database.Open.{
  StoredRow, EntriesTable, PayloadsTable, Content, Disk, finish, attempt_step, step, on_table,
  put_table, on_entries, new_payloads,
}
use mimeclip.Database.Open.Times.{rows_in, IsFrom, IsFrom-refl, IsFrom-trans}

-- The lists have one length, and their elements are related one by one.
abbrev pub Pairs : {A B : Type 0} → (A → B → Type 0) → List A → List B → Type 0
Pairs R [] [] = Unit
Pairs R [] (y ∷ ys) = ⊥
Pairs R (x ∷ xs) [] = ⊥
Pairs R (x ∷ xs) (y ∷ ys) = R x y × Pairs R xs ys

pub Pairs-refl : (rows : List StoredRow) → Pairs IsFrom rows rows
Pairs-refl [] = tt
Pairs-refl (r ∷ rows) = (IsFrom-refl r, Pairs-refl rows)

Pairs-trans :
    (xs ys zs : List StoredRow) → Pairs IsFrom xs ys → Pairs IsFrom ys zs → Pairs IsFrom xs zs
Pairs-trans [] [] [] p q = tt
Pairs-trans [] [] (z ∷ zs) p q = elim q [ ]
Pairs-trans [] (y ∷ ys) zs p q = elim p [ ]
Pairs-trans (x ∷ xs) [] zs p q = elim p [ ]
Pairs-trans (x ∷ xs) (y ∷ ys) [] p q = elim q [ ]
Pairs-trans (x ∷ xs) (y ∷ ys) (z ∷ zs) p q =
    (IsFrom-trans x y z p.0 q.0, Pairs-trans xs ys zs p.1 q.1)

-- The rows are those that were there, and so are the payloads.
pub record IsAdvance (before after : Content) : Type 0 where
  pub rows : Pairs IsFrom (rows_in before.entries) (rows_in after.entries)
  pub payloads : new_payloads after.payloads ≡ new_payloads before.payloads
  pub entry_seq : after.entry_seq ≡ before.entry_seq
  pub payload_seq : after.payload_seq ≡ before.payload_seq

pub IsAdvance-refl : (c : Content) → IsAdvance c c
IsAdvance-refl c = record {
  rows = Pairs-refl (rows_in c.entries);
  payloads = refl;
  entry_seq = refl;
  payload_seq = refl;
}

pub IsAdvance-trans : (a b c : Content) → IsAdvance a b → IsAdvance b c → IsAdvance a c
IsAdvance-trans a b c f g = record {
  rows = Pairs-trans (rows_in a.entries) (rows_in b.entries) (rows_in c.entries) f.rows g.rows;
  payloads = cc;
  entry_seq = cc;
  payload_seq = cc;
}

-- From a file with `P`, `m` only advances the rows, and where it succeeds, the file has `Q`.
pub record Migrates {A : Type 0} (P : Content → Type 0) (Q : A → Content → Type 0)
    (m : Action DbError Disk A) : Type 0 where
  pub at : (d : Disk) → P d.content → IsAdvance d.content (m d).1.content
  pub holds : (d : Disk) → P d.content → (a : A) → (m d).0 ≡ ok a → Q a (m d).1.content

abbrev pub Settles : (Content → Type 0) → Content → Result DbError Disk → Type 0
Settles Q before (ok after) = IsAdvance before after.content × Q after.content
Settles Q before (err e) = Unit

finish-at :
    (Q : Content → Type 0) (r : Result DbError Disk) (d : Disk)
    → Settles Q d.content r
    → IsAdvance d.content (finish r d).1.content
unfolding finish
finish-at Q (ok after) d s = s.0
finish-at Q (err e) d s = IsAdvance-refl d.content

finish-holds :
    (Q : Content → Type 0) (r : Result DbError Disk) (d : Disk) (a : Unit {0})
    → Settles Q d.content r
    → (finish r d).0 ≡ ok a
    → Q (finish r d).1.content
unfolding finish
finish-holds Q (ok after) d a s h = s.1
finish-holds Q (err e) d a s h = cc

module _ (P Q : Content → Type 0) (effect : Disk → Result DbError Disk)
    (settles : (d : Disk) → P d.content → Settles Q d.content (effect d)) where
  attempt-at :
      (faults : List Bool) (d : Disk)
      → P d.content
      → IsAdvance d.content (attempt_step faults effect d).1.content
  unfolding attempt_step
  attempt-at [] d p = finish-at Q (effect d) d (settles d p)
  attempt-at (true ∷ faults) d p = IsAdvance-refl d.content
  attempt-at (false ∷ faults) d p =
      finish-at Q _ (record d { faults = faults }) (settles (record d { faults = faults }) p)

  attempt-holds :
      (faults : List Bool) (d : Disk)
      → P d.content
      → (a : Unit {0}) → (attempt_step faults effect d).0 ≡ ok a
      → Q (attempt_step faults effect d).1.content
  unfolding attempt_step
  attempt-holds [] d p a h = finish-holds Q (effect d) d a (settles d p) h
  attempt-holds (true ∷ faults) d p a h = cc
  attempt-holds (false ∷ faults) d p a h =
      finish-holds Q _ (record d { faults = faults }) a (settles (record d { faults = faults }) p) h

  pub Migrates-step : Migrates P (λ _. Q) (step effect)
  unfolding step
  Migrates-step = record {
    at = λ d p. attempt-at d.faults d p;
    holds = λ d p a h. attempt-holds d.faults d p a h;
  }

pub Migrates-pure :
    {A : Type 0} (P : Content → Type 0) (a : A) (Q : A → Content → Type 0)
    → ((c : Content) → P c → Q a c)
    → Migrates P Q (pure a)
unfolding pure
Migrates-pure P a Q f = record {
  at = λ d p. IsAdvance-refl d.content;
  holds = λ d p b h. subst (λ x. Q x d.content) (ok-injective h) (f d.content p);
}

module _ {A B : Type 0} {Q : A → Content → Type 0} {S : B → Content → Type 0} where
  continue-at :
      (r : Result DbError A) (f : A → Action DbError Disk B) (before after : Disk)
      → IsAdvance before.content after.content
      → ((a : A) → r ≡ ok a → Q a after.content)
      → ((a : A) → Migrates (Q a) S (f a))
      → IsAdvance before.content (continue r f after).1.content
  continue-at (ok a) f before after i q k = IsAdvance-trans _ _ _ i ((k a).at after (q a refl))
  continue-at (err e) f before after i q k = i

  continue-holds :
      (r : Result DbError A) (f : A → Action DbError Disk B) (after : Disk)
      → ((a : A) → r ≡ ok a → Q a after.content)
      → ((a : A) → Migrates (Q a) S (f a))
      → (b : B) → (continue r f after).0 ≡ ok b
      → S b (continue r f after).1.content
  continue-holds (ok a) f after q k b h = (k a).holds after (q a refl) b h
  continue-holds (err e) f after q k b h = cc

  pub Migrates-bind :
      {P : Content → Type 0} (m : Action DbError Disk A) (f : A → Action DbError Disk B)
      → Migrates P Q m
      → ((a : A) → Migrates (Q a) S (f a))
      → Migrates P S (m >>= f)
  unfolding ◌>>=◌
  Migrates-bind m f km kf = record {
    at = λ d p. continue-at (m d).0 f d (m d).1 (km.at d p) (km.holds d p) kf;
    holds = λ d p b h. continue-holds (m d).0 f (m d).1 (km.holds d p) kf b h;
  }

-- The tables are there, and that of the entries has `P`.
pub record HasTables (P : EntriesTable → Type 0) (c : Content) : Type 0 where
  pub table : EntriesTable
  pub entries : c.entries ≡ some table
  pub has : P table
  pub stored : PayloadsTable
  pub payloads : c.payloads ≡ some stored

module _ (P Q : EntriesTable → Type 0) (effect : EntriesTable → Result DbError EntriesTable)
    (keeps : (t t' : EntriesTable)
      → P t
      → effect t ≡ ok t'
      → Pairs IsFrom (rows_in (some t)) (rows_in (some t')) × Q t') where
  put_table-Settles :
      (d : Disk) (h : HasTables P d.content) (r : Result DbError EntriesTable)
      → effect h.table ≡ r
      → Settles (HasTables Q) d.content (put_table d r)
  unfolding put_table
  put_table-Settles d h (err e) done = tt
  put_table-Settles d h (ok t') done =
      let k = keeps h.table t' h.has done in
      (
        record { rows = rw h.entries k.0; payloads = refl; entry_seq = refl; payload_seq = refl },
        record { table = t'; entries = refl; has = k.1; stored = h.stored; payloads = h.payloads },
      )

  on_table-Settles :
      (d : Disk)
      → HasTables P d.content
      → Settles (HasTables Q) d.content (on_table effect d d.entries)
  unfolding on_table
  on_table-Settles d h =
      subst (λ e. Settles (HasTables Q) d.content (on_table effect d e)) (sym h.entries)
        (put_table-Settles d h (effect h.table) refl)

  pub Migrates-on_entries : Migrates (HasTables P) (λ _. HasTables Q) (on_entries effect)
  unfolding on_entries
  Migrates-on_entries = Migrates-step _ _ _ on_table-Settles
