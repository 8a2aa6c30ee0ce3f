-- ===== src/Replay/Once.antt =====
-- How often a signed request is accepted.
use incident_agent.Common.{
  ℕ, ◌+◌, ◌≤◌, String, ◌≡◌, ◌≢◌, refl, ap, sym, subst, ◌∙◌, Bool, false, ◌||◌, List, [], ◌∷◌, Memᴰ,
  Memᴰ-append, Memᴰ-last, All, str_eq, eq_refl, ◌==◌, ltb, count, count-Memᴰ, delete_where, arith,
  Bool-cases, inl, inr,
}
use incident_agent.Replay.{
  Nonce, Stamp, unreadable, without_timezone, at, accepted, Request, distance, is_expired, has_hash,
  consume, new_nonce, validate_stamp, validate_and_record_nonce,
}

-- A row of a nonce that expires at a time.
record Keeps (hash : String) (expires : ℕ) (rows : List Nonce) : Type 0 where
  row : Nonce
  stored : Memᴰ row rows
  same : row.nonce_hash ≡ hash
  until : row.expires_at ≡ expires

delete_where-Memᴰ :
    (p : Nonce → Bool) (x : Nonce) (xs : List Nonce)
    → Memᴰ x xs
    → p x ≡ false
    → Memᴰ x (delete_where p xs)
unfolding delete_where
delete_where-Memᴰ p x [] m h = elim m [ ]
delete_where-Memᴰ p x (y ∷ xs) (Memᴰ.head e) h = rw (← e, h) (Memᴰ.head refl)
delete_where-Memᴰ p x (y ∷ xs) (Memᴰ.tail m) h =
    let rest = delete_where-Memᴰ p x xs m h in
    elim (Bool-cases (p y)) [ inl q ↦ rw q rest | inr q ↦ rw q (Memᴰ.tail rest) ]

delete_where-Keeps :
    (hash : String) (expires current : ℕ) (rows : List Nonce)
    → current ≤ expires
    → Keeps hash expires rows
    → Keeps hash expires (delete_where (is_expired current) rows)
delete_where-Keeps hash expires current rows c k =
    let fresh : is_expired current k.row ≡ false = ground (arith, k.until) in
    record {
      row = k.row;
      stored = delete_where-Memᴰ (is_expired current) k.row rows k.stored fresh;
      same = k.same;
      until = k.until;
    }

consume-Keeps :
    (hash : String) (expires : ℕ) (before rows : List Nonce) (new : Nonce)
    → Keeps hash expires before
    → Keeps hash expires rows
    → Keeps hash expires (consume before rows new).1
unfolding consume
consume-Keeps hash expires before rows new b k =
    elim (Bool-cases (count (has_hash new.nonce_hash) rows == 0)) [
      | inr q ↦ rw q b
      | inl q ↦ rw q (record {
        row = k.row;
        stored = Memᴰ-append k.row rows (new ∷ []) k.stored;
        same = k.same;
        until = k.until;
      })
    ]

validate_stamp-Keeps :
    (sha256 : String → String) (hash : String) (expires : ℕ) (rows : List Nonce) (s : Stamp)
    (nonce : String) (window current : ℕ)
    → current ≤ expires
    → Keeps hash expires rows
    → Keeps hash expires (validate_stamp sha256 rows s nonce window current).1
validate_stamp-Keeps sha256 hash expires rows unreadable nonce window current c k = k
validate_stamp-Keeps sha256 hash expires rows without_timezone nonce window current c k = k
validate_stamp-Keeps sha256 hash expires rows (at observed) nonce window current c k =
    elim (Bool-cases (ltb window (distance current observed))) [
      | inl q ↦ rw q k
      | inr q ↦ rw q (
          consume-Keeps hash expires rows _ (new_nonce sha256 nonce window current) k
            (delete_where-Keeps hash expires current rows c k))
    ]

validate_and_record_nonce-Keeps :
    (sha256 : String → String) (hash : String) (expires : ℕ) (rows : List Nonce) (r : Request)
    (window current : ℕ)
    → current ≤ expires
    → Keeps hash expires rows
    → Keeps hash expires (validate_and_record_nonce sha256 rows r window current).1
unfolding validate_and_record_nonce
validate_and_record_nonce-Keeps sha256 hash expires rows r window current c k =
    elim (Bool-cases (str_eq r.nonce "" || ltb 128 (Prim.Native.String.count r.nonce))) [
      | inl q ↦ rw q k
      | inr q ↦
          rw q
            (validate_stamp-Keeps sha256 hash expires rows r.timestamp r.nonce window current c k)
    ]

-- The guard that a call passes before its nonce is consumed.
stamp_accepted :
    (sha256 : String → String) (rows : List Nonce) (s : Stamp) (nonce : String) (window current : ℕ)
    → let o = validate_stamp sha256 rows s nonce window current in
      o.0 ≡ accepted
      → ((observed : ℕ) → s ≡ at observed → distance current observed ≤ window)
        × Keeps (sha256 nonce) (current + window) o.1
        × (count (has_hash (sha256 nonce)) (delete_where (is_expired current) rows) ≡ 0)
unfolding consume
stamp_accepted sha256 rows unreadable nonce window current e = absurd (grind arith)
stamp_accepted sha256 rows without_timezone nonce window current e = absurd (grind arith)
stamp_accepted sha256 rows (at t) nonce window current e =
    let left = delete_where (is_expired current) rows in
    elim (Bool-cases (ltb window (distance current t))) [
      | inl q ↦ absurd (let f = rw q at e in grind arith)
      | inr q ↦ elim (Bool-cases (count (has_hash (sha256 nonce)) left == 0)) [
        | inr p ↦ absurd (let f = rw (q, p) at e in grind arith)
        | inl p ↦
            rw (q, p)
              (
                λ o same. let t_is : t ≡ o = grind arith in rw (← t_is) (ground arith),
                record {
                  row = new_nonce sha256 nonce window current;
                  stored = Memᴰ-last _ left;
                  same = refl;
                  until = refl;
                },
                ground arith,
              )
      ]
    ]

request_accepted :
    (sha256 : String → String) (rows : List Nonce) (r : Request) (window current : ℕ)
    → (validate_and_record_nonce sha256 rows r window current).0 ≡ accepted
    → validate_and_record_nonce sha256 rows r window current
      ≡ validate_stamp sha256 rows r.timestamp r.nonce window current
unfolding validate_and_record_nonce
request_accepted sha256 rows r window current e =
    elim (Bool-cases (str_eq r.nonce "" || ltb 128 (Prim.Native.String.count r.nonce))) [
      | inl q ↦ absurd (let f = rw q at e in grind arith)
      | inr q ↦ rw q refl
    ]

stored_refused :
    (sha256 : String → String) (rows : List Nonce) (r : Request) (window current expires : ℕ)
    → Keeps (sha256 r.nonce) expires rows
    → current ≤ expires
    → (validate_and_record_nonce sha256 rows r window current).0 ≢ accepted
stored_refused sha256 rows r window current expires k c e =
    let passed = request_accepted sha256 rows r window current e in
    let a =
      stamp_accepted sha256 rows r.timestamp r.nonce window current
        (ap (λ o. o.0) (sym passed) ∙ e) in
    let kept = delete_where-Keeps (sha256 r.nonce) expires current rows c k in
    let some_row =
      count-Memᴰ (has_hash (sha256 r.nonce)) kept.row _ kept.stored (rw kept.same (eq_refl _)) in
    absurd (ground (arith, a.2))

module _ (sha256 : String → String) (window : ℕ) where
  -- The table after other requests, each with its time.
  unfoldable pub validate_all : List Nonce → List (Request × ℕ) → List Nonce
  validate_all rows [] = rows
  validate_all rows ((r, now) ∷ xs) =
      validate_all (validate_and_record_nonce sha256 rows r window now).1 xs

  validate_all-Keeps :
      (hash : String) (expires : ℕ) (rows : List Nonce) (xs : List (Request × ℕ))
      → All (λ x. x.1 ≤ expires) xs
      → Keeps hash expires rows
      → Keeps hash expires (validate_all rows xs)
  unfolding validate_all
  validate_all-Keeps hash expires rows [] a k = k
  validate_all-Keeps hash expires rows ((r, now) ∷ xs) a k =
      validate_all-Keeps hash expires (validate_and_record_nonce sha256 rows r window now).1 xs a.1
        (validate_and_record_nonce-Keeps sha256 hash expires rows r window now a.0 k)

  All-mono :
      (t u : ℕ) (xs : List (Request × ℕ)) → t ≤ u → All (λ x. x.1 ≤ t) xs → All (λ x. x.1 ≤ u) xs
  All-mono t u [] h a = tt
  All-mono t u (x ∷ xs) h a = (omega (arith, a.0), All-mono t u xs h a.1)

  -- A signed request whose timestamp is not after the time at which it is accepted is never accepted
  -- again, whatever other requests come in between, none of them later than the second attempt.
  pub validate_and_record_nonce_once :
      (rows : List Nonce) (r : Request) (observed first second : ℕ) (between : List (Request × ℕ))
      → r.timestamp ≡ at observed
      → observed ≤ first
      → (validate_and_record_nonce sha256 rows r window first).0 ≡ accepted
      → All (λ x. x.1 ≤ second) between
      → (validate_and_record_nonce sha256
          (validate_all (validate_and_record_nonce sha256 rows r window first).1 between)
          r
          window
          second).0
        ≢ accepted
  validate_and_record_nonce_once rows r observed first second between s past e a again =
      let after_first = (validate_and_record_nonce sha256 rows r window first).1 in
      let later = validate_all after_first between in
      let p1 = request_accepted sha256 rows r window first e in
      let a1 =
        stamp_accepted sha256 rows r.timestamp r.nonce window first (ap (λ o. o.0) (sym p1) ∙ e) in
      let k1 : Keeps (sha256 r.nonce) (first + window) after_first =
        subst (λ o. Keeps (sha256 r.nonce) (first + window) o.1) (sym p1) a1.1 in
      let p2 = request_accepted sha256 later r window second again in
      let a2 =
        stamp_accepted sha256 later r.timestamp r.nonce window second
          (ap (λ o. o.0) (sym p2) ∙ again) in
      let in_time : second ≤ first + window = omega (arith, a2.0 observed s, past) in
      let k2 =
        validate_all-Keeps (sha256 r.nonce) (first + window) after_first between
          (All-mono second (first + window) between in_time a) k1 in
      stored_refused sha256 later r window second (first + window) k2 in_time again
