-- ===== src/Ledger/Attempts.antt =====
-- The node attempts of packages/persistence/src/index.ts.
use ehfconcept.Prelude.{
  ℕ, ◌≡◌, refl, Bool, ◌&&◌, String, List, [], ◌∷◌, ◌++◌, Option, none, some, ◌==◌, compare_texts,
  compare_numbers, if◌then◌else◌, find, is_some, update_rows, arith,
}
use ehfconcept.Contracts.Value.{Value}
use ehfconcept.Contracts.Canonical.{Hashing, stable_digest}
use ehfconcept.Ledger.Store.{NodeAttempt, Db}

pub record AttemptKey : Type 0 where
  pub run_id : String
  pub node_id : String
  pub attempt : ℕ

abbrev pub has_key : AttemptKey → NodeAttempt → Bool
has_key k a = a.run_id == k.run_id && a.node_id == k.node_id && a.attempt == k.attempt

abbrev pub begun :
    Hashing → ℕ → AttemptKey → ℕ → Value → Option String → Option String → NodeAttempt
begun h now k epoch value trace_id span_id = record {
  run_id = k.run_id;
  node_id = k.node_id;
  attempt = k.attempt;
  fencing_epoch = epoch;
  status = "running";
  input_digest = some (stable_digest h value);
  output_digest = none;
  checkpoint_id = none;
  started_at = now;
  completed_at = none;
  error_code = none;
  trace_id = trace_id;
  span_id = span_id;
}

unfoldable pub begin_node_attempt :
    Hashing → ℕ → AttemptKey → ℕ → Value → Option String → Option String → Db → Db
begin_node_attempt h now k epoch value trace_id span_id db =
    if is_some (find (has_key k) db.node_attempts) then db else record db {
      node_attempts = db.node_attempts ++ begun h now k epoch value trace_id span_id ∷ [];
    }

abbrev value_digest : Hashing → Option Value → Option String
value_digest h none = none
value_digest h (some value) = some (stable_digest h value)

unfoldable pub finish_node_attempt :
    Hashing → ℕ → AttemptKey → String → Option Value → Option String → Option String → Db → Db
finish_node_attempt h now k status value error_code checkpoint_id db = record db {
  node_attempts =
      update_rows
        (λ a.
          if has_key k a
          then some (record a {
            status = status;
            output_digest = value_digest h value;
            error_code = error_code;
            checkpoint_id = checkpoint_id;
            completed_at = some now;
          })
          else none)
        db.node_attempts;
}

unfoldable pub find_attempt : AttemptKey → Db → Option NodeAttempt
find_attempt k db = find (has_key k) db.node_attempts

-- What a begun attempt keeps when it is finished.
pub record IsFinished (h : Hashing) (now : ℕ) (status : String) (value : Option Value)
    (error : Option String) (a b : NodeAttempt) : Type 0 where
  pub same_start : b.started_at ≡ a.started_at
  pub same_input : b.input_digest ≡ a.input_digest
  pub same_fence : b.fencing_epoch ≡ a.fencing_epoch
  pub ended : b.completed_at ≡ some now
  pub status_kept : b.status ≡ status
  pub error_kept : b.error_code ≡ error

find-finish :
    (h : Hashing) (now : ℕ) (k : AttemptKey) (status : String) (value : Option Value)
    (error checkpoint : Option String) (db : Db) (a : NodeAttempt)
    → find_attempt k db ≡ some a
    → find_attempt k (finish_node_attempt h now k status value error checkpoint db)
      ≡ some (record a {
        status = status;
        output_digest = value_digest h value;
        error_code = error;
        checkpoint_id = checkpoint;
        completed_at = some now;
      })
unfolding find_attempt finish_node_attempt update_rows
find-finish h now k status value error checkpoint db a e = go db.node_attempts e
  where
    go :
        (xs : List NodeAttempt)
        → find (has_key k) xs ≡ some a
        → find (has_key k) (
            update_rows
              (λ a.
                if has_key k a
                then some (record a {
                  status = status;
                  output_digest = value_digest h value;
                  error_code = error;
                  checkpoint_id = checkpoint;
                  completed_at = some now;
                })
                else none)
              xs)
          ≡ some (record a {
            status = status;
            output_digest = value_digest h value;
            error_code = error;
            checkpoint_id = checkpoint;
            completed_at = some now;
          })
    go [] e = cc e
    go (x ∷ xs) e = ground (arith, go xs)

-- An attempt that has begun is begun once: to begin it again, with any value, fence and trace, changes
-- nothing, and when it is finished it is found with the start, the input and the fence it began with
-- and with the status and the error that were reported.
pub begun_attempt_kept :
    (h : Hashing) (now' now'' epoch : ℕ) (k : AttemptKey) (v : Value) (t u : Option String)
    (status : String) (value : Option Value) (error checkpoint : Option String) (db : Db)
    (a : NodeAttempt)
    → find_attempt k db ≡ some a
    → (begin_node_attempt h now' k epoch v t u db ≡ db)
      × ((b : NodeAttempt) × (find_attempt k
              (finish_node_attempt h now'' k status value error checkpoint db)
            ≡ some b)
          × IsFinished h now'' status value error a b)
unfolding begin_node_attempt find_attempt
begun_attempt_kept h now' now'' epoch k v t u status value error checkpoint db a e = (
  rw (e, begin_node_attempt) refl,
  (
    _,
    unfold find_attempt in find-finish h now'' k status value error checkpoint db a e,
    record {
      same_start = refl;
      same_input = refl;
      same_fence = refl;
      ended = refl;
      status_kept = refl;
      error_kept = refl;
    },
  ),
)
