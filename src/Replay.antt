-- ===== src/Replay.antt =====
-- webhook/replay.py: validate_and_record_nonce, the replay guard of signed requests, over the table
-- webhook_nonces. Times are in microseconds.
pub mod Once
use Prim.Native.String.{count as characters}
use incident_agent.Common.{
  ℕ, ◌+◌, ◌-◌, String, Bool, ◌||◌, not, List, [], ◌∷◌, ◌++◌, str_eq, ◌==◌, ltb, count, delete_where,
  if◌then◌else◌,
}

-- webhook_nonces
pub record Nonce : Type 0 where
  pub nonce_hash : String
  pub expires_at : ℕ
  pub used_at : ℕ

-- A timestamp as fromisoformat reads it: not at all, without a time zone, or as a time.
pub data Stamp : Type 0 where
  unreadable without_timezone : Stamp
  at : ℕ → Stamp

-- ReplayError by its code
pub data Answer : Type 0 where
  accepted : Answer
  replay_error : String → Answer

pub record Request : Type 0 where
  pub timestamp : Stamp
  pub nonce : String

-- `abs((current - observed).total_seconds())`
abbrev pub distance : ℕ → ℕ → ℕ
distance current observed = (current - observed) + (observed - current)

abbrev pub is_expired : ℕ → Nonce → Bool
is_expired current n = ltb n.expires_at current

abbrev pub has_hash : String → Nonce → Bool
has_hash hash n = str_eq n.nonce_hash hash

-- The INSERT, which the primary key refuses for a nonce that is there; the DELETE is rolled back then.
unfoldable pub consume : List Nonce → List Nonce → Nonce → Answer × List Nonce
consume before rows new =
    if count (has_hash new.nonce_hash) rows == 0
    then (accepted, rows ++ new ∷ [])
    else (replay_error "replayed_signature_nonce", before)

abbrev pub new_nonce : (String → String) → String → ℕ → ℕ → Nonce
new_nonce sha256 nonce window current = record {
  nonce_hash = sha256 nonce;
  expires_at = current + window;
  used_at = current;
}

abbrev pub validate_stamp :
    (String → String) → List Nonce → Stamp → String → ℕ → ℕ → Answer × List Nonce
validate_stamp sha256 rows unreadable nonce window current =
    (replay_error "invalid_signature_timestamp", rows)
validate_stamp sha256 rows without_timezone nonce window current =
    (replay_error "invalid_signature_timestamp", rows)
validate_stamp sha256 rows (at observed) nonce window current =
    if ltb window (distance current observed)
    then (replay_error "signature_timestamp_outside_window", rows)
    else consume rows (delete_where (is_expired current) rows)
        (new_nonce sha256 nonce window current)

-- `sha256` is hashlib's, and `current` the clock.
unfoldable pub validate_and_record_nonce :
    (String → String) → List Nonce → Request → ℕ → ℕ → Answer × List Nonce
validate_and_record_nonce sha256 rows r window current =
    if str_eq r.nonce "" || ltb 128 (characters r.nonce)
    then (replay_error "invalid_signature_nonce", rows)
    else validate_stamp sha256 rows r.timestamp r.nonce window current
