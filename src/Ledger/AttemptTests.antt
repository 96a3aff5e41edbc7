-- ===== src/Ledger/AttemptTests.antt =====
-- A node attempt that begins, begins again and finishes.
use ehfconcept.Prelude.{◌≡◌, refl, none, some}
use ehfconcept.Contracts.Value.{null}
use ehfconcept.Contracts.Canonical.{Hashing}
use ehfconcept.Ledger.Store.{NodeAttempt, Db, empty_db}
use ehfconcept.Ledger.Attempts.{
  AttemptKey, begun, begin_node_attempt, find_attempt, finish_node_attempt, IsFinished,
  begun_attempt_kept,
}

abbrev runtime : Hashing
runtime = record { stringify = λ v. "v"; sha256 = λ s. s }

abbrev key : AttemptKey
key = record { run_id = "R"; node_id = "N"; attempt = 1 }

abbrev started : Db
started = begin_node_attempt runtime 5 key 1 null none none empty_db

abbrev row : NodeAttempt
row = begun runtime 5 key 1 null none none

found : find_attempt key started ≡ some row
unfolding find_attempt begin_node_attempt
found = refl

begun_attempt_kept_example :
    (begin_node_attempt runtime 6 key 2 null none none started ≡ started)
    × ((b : NodeAttempt) × (find_attempt key
            (finish_node_attempt runtime 7 key "completed" (some null) none none started)
          ≡ some b)
        × IsFinished runtime 7 "completed" (some null) none row b)
begun_attempt_kept_example =
    begun_attempt_kept runtime 6 7 2 key null none none "completed" (some null) none none started
      row found
