-- ===== src/Store/Keys.antt =====
-- `_job_key` of webhook/incident_store.py.
use Prim.Native.String.{◌++◌}
use incident_agent.Common.{ℕ, zero, suc, ◌/◌, ◌%◌, String, ◌≡◌, refl, ◌==◌, ltb, if◌then◌else◌}
use incident_agent.Store.{Env, Kind, analyze, reprocess}

digit : ℕ → String
digit d =
    if d == 0
    then "0"
    else if d == 1
    then "1"
    else if d == 2
    then "2"
    else if d == 3
    then "3"
    else if d == 4
    then "4"
    else if d == 5
    then "5"
    else if d == 6
    then "6"
    else if d == 7
    then "7"
    else if d == 8
    then "8"
    else "9"

-- A number has at most as many digits as itself plus one, so the fuel is enough.
decimal_from : ℕ → ℕ → String
decimal_from zero n = ""
decimal_from (suc fuel) n =
    let front = decimal_from fuel (n / 10) in if ltb n 10 then digit n else front ++ digit (n % 10)

-- str(n)
unfoldable pub decimal : ℕ → String
unfolding decimal_from digit
decimal n = decimal_from (suc n) n

unfoldable pub kind_text : Kind → String
kind_text analyze = "analyze"
kind_text reprocess = "reprocess"

-- hashlib.sha256(f"{kind}:{event_id}:{salt}".encode("utf-8")).hexdigest()
unfoldable pub job_key : Env → ℕ → Kind → String → String
unfolding kind_text decimal
job_key env event_id kind salt =
    env.sha256 (kind_text kind ++ (":" ++ (decimal event_id ++ (":" ++ salt))))

decimal_digits : decimal 100205 ≡ "100205"
unfolding decimal
decimal_digits = refl
