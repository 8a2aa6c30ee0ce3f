-- ===== src/Tests/Nonces.antt =====
-- Concrete requests to webhook/replay.py.
use incident_agent.Common.{String, ◌≡◌, ◌≢◌, refl, [], ◌∷◌, count, delete_where, arith}
use incident_agent.Replay.{at, accepted, Request, validate_and_record_nonce, consume}
use incident_agent.Replay.Once.{validate_all, validate_and_record_nonce_once}

abbrev sha256 : String → String
sha256 s = s

abbrev signed : Request
signed = record { timestamp = at 95; nonce = "n-1" }

abbrev other : Request
other = record { timestamp = at 100; nonce = "n-2" }

first_call : (validate_and_record_nonce sha256 [] signed 10 100).0 ≡ accepted
unfolding validate_and_record_nonce consume count delete_where
first_call = refl

validate_and_record_nonce_once_example :
    (validate_and_record_nonce sha256
      (validate_all sha256 10
        (validate_and_record_nonce sha256 [] signed 10 100).1
        ((other, 102) ∷ []))
      signed
      10
      104).0
    ≢ accepted
validate_and_record_nonce_once_example =
    validate_and_record_nonce_once sha256 10 [] signed 95 100 104 ((other, 102) ∷ []) refl
      (omega arith) first_call (omega arith, tt)

-- A timestamp of the future outlives the row of its nonce: both calls are accepted.
abbrev early : Request
early = record { timestamp = at 110; nonce = "n-1" }

early_twice :
    (validate_and_record_nonce sha256
      (validate_and_record_nonce sha256 [] early 10 100).1
      early
      10
      111).0
    ≡ accepted
unfolding validate_and_record_nonce consume count delete_where
early_twice = refl
