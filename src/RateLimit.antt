-- ===== src/RateLimit.antt =====
-- webhook/rate_limit.py: allow, the fixed-window limiter over the table webhook_rate_limits. The time is in
-- microseconds; the function returns its answer with the table that its transaction leaves behind.
pub mod Windows
use incident_agent.Common.{
  ℕ, ◌+◌, ◌-◌, ◌*◌, ◌/◌, max, String, Bool, true, false, ◌&&◌, Option, none, some, List, [], ◌∷◌,
  ◌++◌, str_eq, ◌==◌, ltb, leb, find, delete_where, update_where, if◌then◌else◌, is_some,
}
use incident_agent.Store.{Env}

-- webhook_rate_limits
pub record Window : Type 0 where
  pub key_hash : String
  pub window_id : ℕ
  pub request_count : ℕ

abbrev pub microseconds : ℕ
microseconds = 1000000

-- math.floor(current / window_seconds)
unfoldable pub window_at : ℕ → ℕ → ℕ
window_at window_seconds now = now / (window_seconds * microseconds)

abbrev pub of_window : String → ℕ → Window → Bool
of_window key_hash window_id x = str_eq x.key_hash key_hash && (x.window_id == window_id)

-- `row[0] if row else 0`
abbrev pub count_of : Option Window → ℕ
count_of none = 0
count_of (some x) = x.request_count

unfoldable pub drop_old : ℕ → List Window → List Window
drop_old window_id = delete_where (λ x. ltb x.window_id (window_id - 1))

unfoldable pub counted : Window → Window
counted x = record x { request_count = x.request_count + 1 }

abbrev pub count_request : Option Window → String → ℕ → List Window → List Window
count_request none key_hash window_id rows =
    rows ++ record { key_hash = key_hash; window_id = window_id; request_count = 1 } ∷ []
count_request (some x) key_hash window_id rows =
    update_where (of_window key_hash window_id) counted rows

-- The seconds to wait, `int` rounding down.
unfoldable pub retry_after : ℕ → ℕ → ℕ → ℕ
retry_after window_id window_seconds now =
    max 1 (((window_id + 1) * window_seconds * microseconds - now) / microseconds)

-- The transaction, for the hash of the key and the window.
unfoldable pub allow_in : List Window → String → ℕ → ℕ → ℕ → ℕ → (Bool × ℕ) × List Window
allow_in rows key_hash window_id limit window_seconds now =
    let kept = drop_old window_id rows in
    let row = find (of_window key_hash window_id) kept in
    if leb limit (count_of row)
    then ((false, retry_after window_id window_seconds now), kept)
    else ((true, 0), count_request row key_hash window_id kept)

unfoldable pub allow : Env → List Window → String → ℕ → ℕ → ℕ → (Bool × ℕ) × List Window
allow env rows key limit window_seconds now =
    allow_in rows (env.sha256 key) (window_at window_seconds now) limit window_seconds now
