-- ===== src/Tests/History.antt =====
-- The history of src/common/db.rs: two entries, one of them copied again.
use mimeclip.Base.{refl, none, some, List, [], ◌∷◌, arith}
use mimeclip.Base.Bytes.{text}
use mimeclip.Database.Calls.{Call, inserts, touches, deletes, reloads, clears, after_calls}
use mimeclip.Database.History.Refinement.{after_calls-IsRun}
use mimeclip.Database.History.Usable.{IsUsable}
use mimeclip.Database.History.Steps.{IsRun}
use mimeclip.Tests.Database.{stable, empty, empty-IsValid, oldest, newest_entry}

empty-IsUsable : IsUsable empty
empty-IsUsable = record {
  valid = empty-IsValid;
  references = refl;
  no_faults = refl;
  timestamp = refl;
}

-- The first reload leaves room for one entry.
abbrev calls : List Call
calls =
    inserts oldest
    ∷ inserts newest_entry
    ∷ touches (text "12:02") 2
    ∷ reloads (some (record { max_entries = 1; max_history_size = 10 }))
    ∷ deletes 2
    ∷ reloads none
    ∷ clears
    ∷ []

after_calls-IsRun_example : IsRun calls empty (after_calls stable calls empty)
after_calls-IsRun_example =
    after_calls-IsRun stable calls empty empty-IsUsable (omega arith, omega arith)
      (tt, (tt, (tt, ((omega arith, omega arith), (tt, (tt, (tt, tt)))))))
