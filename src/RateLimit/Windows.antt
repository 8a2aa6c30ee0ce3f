-- ===== src/RateLimit/Windows.antt =====
-- How many requests of a key the limiter allows in a window.
use incident_agent.Common.{
  ℕ, suc, ◌+◌, ◌-◌, ◌≤◌, ◌<◌, String, ◌≡◌, refl, sym, ap, ◌∙◌, Bool, true, false, ◌&&◌, List, [],
  ◌∷◌, str_eq, eq_iff, eq_refl, ==_iff, ==_refl, ◌==◌, ltb, leb, find, find-append, find-p,
  find-delete_where, find-update_where, if◌then◌else◌, arith, Bool-cases, Option-cases, inl, inr,
}
use incident_agent.Store.{Env}
use incident_agent.RateLimit.{
  Window, window_at, of_window, count_of, drop_old, counted, count_request, allow_in, allow,
}

-- A request: its key and its time.
pub record Request : Type 0 where
  pub key : String
  pub now : ℕ

-- The windows of the requests come in order, from window `w` on.
abbrev pub IsOrdered : ℕ → ℕ → List Request → Type 0
IsOrdered window_seconds w [] = Unit
IsOrdered window_seconds w (r ∷ rs) =
    let v = window_at window_seconds r.now in (w ≤ v) × IsOrdered window_seconds v rs

module _ (env : Env) (limit window_seconds : ℕ) where
  -- The requests of a key's hash that a run allows in a window.
  unfoldable pub allowed_in : String → ℕ → List Window → List Request → ℕ
  allowed_in h w rows [] = 0
  allowed_in h w rows (r ∷ rs) =
      let (answer, rows') = allow env rows r.key limit window_seconds r.now in
      let rest = allowed_in h w rows' rs in
      if answer.0 && (str_eq (env.sha256 r.key) h && (window_at window_seconds r.now == w))
      then suc rest
      else rest

  -- The count that is stored for a hash and a window.
  unfoldable pub stored : String → ℕ → List Window → ℕ
  stored h w rows = count_of (find (of_window h w) rows)

  -- After a later window nothing is allowed in an earlier one.
  none_later :
      (h : String) (w v : ℕ) (rows : List Window) (rs : List Request)
      → w < v
      → IsOrdered window_seconds v rs
      → allowed_in h w rows rs ≡ 0
  unfolding allowed_in
  none_later h w v rows [] l o = refl
  none_later h w v rows (r ∷ rs) l o =
      let past : (window_at window_seconds r.now == w) ≡ false = ground (arith, o.0) in
      let rows' = (allow env rows r.key limit window_seconds r.now).1 in
      ground (
        arith,
        past,
        none_later h w (window_at window_seconds r.now) rows' rs (omega (arith, o.0)) o.1,
      )

  -- The windows that are dropped are older than the one before the current.
  drop_old-stored :
      (h : String) (w v : ℕ) (rows : List Window)
      → v ≤ w
      → stored h w (drop_old v rows) ≡ stored h w rows
  unfolding stored drop_old
  drop_old-stored h w v rows l =
      rw
        (find-delete_where (of_window h w) (λ x. ltb x.window_id (v - 1)) (λ x e. ground arith)
          rows)
        refl

  -- Counting a request in its own window.
  count_request-same :
      (h : String) (w : ℕ) (rows : List Window)
      → stored h w (count_request (find (of_window h w) rows) h w rows) ≡ stored h w rows + 1
  unfolding stored counted
  count_request-same h w rows = elim (Option-cases (find (of_window h w) rows)) [
    | inl e ↦
        rw (e, find-append (of_window h w) rows, e) (unfold find in rw (eq_refl, ==_refl) refl)
    | inr (x, e) ↦
        rw
          (
            e,
            find-update_where (of_window h w) (of_window h w) counted (λ y. refl) rows,
            e,
            find-p (of_window h w) rows x e,
          )
          refl
  ]

  apart :
      (h g : String) (w v : ℕ) (y : Window)
      → (str_eq g h && (v == w)) ≡ false
      → of_window h w y ≡ true
      → of_window g v y ≡ false
  apart h g w v y d e = elim (Bool-cases (of_window g v y)) [
    | inr q ↦ q
    | inl q ↦
        let mine : y.key_hash ≡ h = (eq_iff _ _).0 (ground arith) in
        let theirs : y.key_hash ≡ g = (eq_iff _ _).0 (ground arith) in
        let same : v ≡ w = ground arith in
        let equal : str_eq g h ≡ true = (eq_iff _ _).1 (sym theirs ∙ mine) in
        absurd (ground (arith, equal, same))
  ]

  -- Counting a request of another key or window.
  count_request-other :
      (h g : String) (w v : ℕ) (rows : List Window)
      → (str_eq g h && (v == w)) ≡ false
      → stored h w (count_request (find (of_window g v) rows) g v rows) ≡ stored h w rows
  unfolding stored counted
  count_request-other h g w v rows d = elim (Option-cases (find (of_window g v) rows)) [
    | inl e ↦ rw (e, find-append (of_window h w) rows) (unfold find in ground (arith, d))
    | inr (x, e) ↦
        rw (e, find-update_where (of_window h w) (of_window g v) counted (λ y. refl) rows)
          (elim (Option-cases (find (of_window h w) rows)) [
            | inl q ↦ rw q refl
            | inr (y, q) ↦ rw (q, apart h g w v y d (find-p (of_window h w) rows y q)) refl
          ])
  ]

  -- What one request in the window `v` does to the count of `w`.
  allow_in-stored :
      (h g : String) (w v now : ℕ) (rows : List Window)
      → v ≤ w
      → let (answer, rows') = allow_in rows g v limit window_seconds now in
        ((answer.0 && (str_eq g h && (v == w))) ≡ true
          → (stored h w rows < limit) × (stored h w rows' ≡ stored h w rows + 1))
        × ((answer.0 && (str_eq g h && (v == w))) ≡ false → stored h w rows' ≡ stored h w rows)
  unfolding allow_in
  allow_in-stored h g w v now rows l =
      let kept = drop_old v rows in
      let old = drop_old-stored h w v rows l in
      elim (Bool-cases (leb limit (count_of (find (of_window g v) kept)))) [
        | inl e ↦ rw e (λ f. absurd (ground arith), λ f. old)
        | inr e ↦ rw e (elim (Bool-cases (str_eq g h && (v == w))) [
          | inr d ↦ rw d (λ f. absurd (ground arith), λ f. count_request-other h g w v kept d ∙ old)
          | inl d ↦
              let hash : g ≡ h = (eq_iff _ _).0 (ground arith) in
              let window : v ≡ w = (==_iff _ _).0 (ground arith) in
              let there : stored g v kept ≡ stored h w kept = cc in
              let moved : stored h w (count_request (find (of_window g v) kept) g v kept)
                  ≡ stored h w (count_request (find (of_window h w) kept) h w kept) =
                cc in
              let room : stored g v kept < limit = unfold stored in ground arith in
              let below : stored h w rows < limit = omega (arith, room, there, old) in
              rw d (
                λ f. (below, moved ∙ count_request-same h w kept ∙ ap (λ n. n + 1) old),
                λ f. absurd (ground arith),
              )
        ])
      ]

  bounded_step :
      (b : Bool) (rest s s' : ℕ)
      → (b ≡ true → (s < limit) × (s' ≡ s + 1)) × (b ≡ false → s' ≡ s)
      → (s' ≤ limit → rest + s' ≤ limit)
      → s ≤ limit
      → (if b then suc rest else rest) + s ≤ limit
  bounded_step true rest s s' h ih c =
      let (room, next) = h.0 refl in omega (arith, room, next, ih (omega (arith, room, next)))
  bounded_step false rest s s' h ih c =
      let same = h.1 refl in omega (arith, same, ih (omega (arith, same, c)))

  -- However the requests of all keys mix, if their windows come in order, at most `limit` requests
  -- of a key's hash are allowed in one window, with those that the table has counted before.
  pub allowed_in-bounded :
      (h : String) (w v : ℕ) (rows : List Window) (rs : List Request)
      → IsOrdered window_seconds v rs
      → stored h w rows ≤ limit
      → allowed_in h w rows rs + stored h w rows ≤ limit
  unfolding allowed_in allow
  allowed_in-bounded h w v rows [] o c = omega (arith, c)
  allowed_in-bounded h w v rows (r ∷ rs) o c =
      let u = window_at window_seconds r.now in
      elim (Bool-cases (leb u w)) [
        | inl e ↦
            bounded_step _ _ _ _
              (allow_in-stored h (env.sha256 r.key) w u r.now rows (ground arith))
              (λ c'. allowed_in-bounded h w u _ rs o.1 c') c
        | inr e ↦
            let past : w < u = ground arith in
            let nothing : allowed_in h w rows (r ∷ rs) ≡ 0 =
              none_later h w u rows (r ∷ rs) past (omega arith, o.1) in
            omega (arith, nothing, c)
      ]
