-- ===== src/Http/RateLimit.antt =====
-- internal/httpserver/ratelimit.go: a fixed window of hits for each key.
--
-- The table rate_limits is a list of rows, of which the statement touches the one with the key.
-- A store that fails lets a request pass, and is left out. A key is a number; instants and windows are in nanoseconds.
use mathlib.Core.Option.{some-injective}
use whenweall.Prelude.{
  ℕ, ◌+◌, ◌-◌, ◌/◌, ◌≤◌, ◌<◌, ◌≡◌, refl, subst, ◌∙◌, inl, inr, true, false, Option, none, some,
  List, [], ◌∷◌, arith, min, length, ap, ltb, lt→ltb, ◌==◌, ==_iff, Bool-cases, if◌then◌else◌, All,
}

pub record Window : Type 0 where
  pub key : ℕ
  pub count : ℕ
  pub reset_at : ℕ

-- ON CONFLICT DO UPDATE: a window that is over starts again.
abbrev pub hit_row : ℕ → ℕ → Window → Window
hit_row now window w =
    if ltb w.reset_at now
    then record w { count = 1; reset_at = now + window }
    else record w { count = w.count + 1 }

-- The row of the key after the statement (RETURNING), and the table.
unfoldable pub consume : ℕ → ℕ → ℕ → List Window → Window × List Window
consume key now window [] =
    let w : Window = record { key = key; count = 1; reset_at = now + window } in (w, w ∷ [])
consume key now window (w ∷ ws) =
    let rest = consume key now window ws in
    if w.key == key then (hit_row now window w, hit_row now window w ∷ ws) else (rest.0, w ∷ rest.1)

pub data Answer : Type 0 where
  allowed : Answer
  -- With the Retry-After header, in seconds.
  too_many : ℕ → Answer

abbrev pub second : ℕ
second = 1000000000

abbrev pub retry_after : ℕ → ℕ → ℕ
retry_after now reset_at =
    let seconds = (reset_at - now + (second - 1)) / second in if ltb seconds 1 then 1 else seconds

-- `none` for a request that has no identity, which is not limited.
unfoldable pub rate_limit : ℕ → ℕ → Option ℕ → ℕ → List Window → Answer × List Window
unfolding consume
rate_limit limit window none now ws = (allowed, ws)
rate_limit limit window (some key) now ws =
    let (w, ws') = consume key now window ws in
    (if ltb limit w.count then too_many (retry_after now w.reset_at) else allowed, ws')

-- The number of requests of a key that are let through, of those at the given times.
abbrev is_allowed : Answer → ℕ
is_allowed allowed = 1
is_allowed (too_many _) = 0

unfoldable pub passes : ℕ → ℕ → ℕ → List ℕ → List Window → ℕ
unfolding rate_limit
passes limit window key [] ws = 0
passes limit window key (now ∷ times) ws =
    let (a, ws') = rate_limit limit window (some key) now ws in
    is_allowed a + passes limit window key times ws'

-- The key's row: its count and when its window is over; none if there is no row.
abbrev row_of : ℕ → List Window → Option Window
row_of key [] = none
row_of key (w ∷ ws) = if w.key == key then some w else row_of key ws

abbrev pub hit_new : ℕ → ℕ → ℕ → Option Window → Window
hit_new key now window none = record { key = key; count = 1; reset_at = now + window }
hit_new key now window (some w) = hit_row now window w

consume-row_of :
    (key now window : ℕ) (ws : List Window)
    → ((consume key now window ws).0 ≡ hit_new key now window (row_of key ws))
      × (row_of key (consume key now window ws).1 ≡ some (hit_new key now window (row_of key ws)))
unfolding consume
consume-row_of key now window [] = (refl, ground arith)
consume-row_of key now window (w ∷ ws) = elim (Bool-cases (w.key == key)) [
  | inl e ↦ rw e (refl, ground arith)
  | inr e ↦ rw (e, e) (consume-row_of key now window ws)
]

abbrev IsEnded : ℕ → Option Window → Type 0
IsEnded start none = Unit
IsEnded start (some w) = w.reset_at < start

-- The key has no window that is open at the time.
abbrev pub IsOver : ℕ → ℕ → List Window → Type 0
IsOver key start ws = IsEnded start (row_of key ws)

row_of-key : (key : ℕ) (ws : List Window) (w : Window) → row_of key ws ≡ some w → w.key ≡ key
row_of-key key [] w e = cc
row_of-key key (v ∷ ws) w e = elim (Bool-cases (v.key == key)) [
  | inl t ↦
      let same : v ≡ w = some-injective v w (rw t at e) in
      subst (λ x. x.key ≡ key) same ((==_iff v.key key).0 t)
  | inr f ↦ row_of-key key ws w (rw f at e)
]

hit_new-over :
    (key start window : ℕ) (ws : List Window)
    → IsOver key start ws
    → hit_new key start window (row_of key ws)
      ≡ record { key = key; count = 1; reset_at = start + window }
hit_new-over key start window ws over = by_row (row_of key ws) refl over
  where
    by_row :
        (o : Option Window)
        → row_of key ws ≡ o
        → IsEnded start o
        → hit_new key start window o ≡ record { key = key; count = 1; reset_at = start + window }
    by_row none e ended = refl
    by_row (some w) e ended =
        let same : w.key ≡ key = row_of-key key ws w e in
        let reset : ltb w.reset_at start ≡ true = lt→ltb _ _ ended in ground arith

-- In an open window, what is left of the limit passes.
passes-open :
    (limit window key : ℕ) (times : List ℕ) (ws : List Window) (w : Window)
    → row_of key ws ≡ some w
    → All (λ (t : ℕ). t ≤ w.reset_at) times
    → passes limit window key times ws ≡ min (limit - w.count) (length times)
unfolding passes rate_limit
passes-open limit window key [] ws w at within = omega arith
passes-open limit window key (now ∷ times) ws w at (first, within) =
    let (returned, stored) = consume-row_of key now window ws in
    let open_still : ltb w.reset_at now ≡ false = ground arith in
    let hit : hit_new key now window (row_of key ws) ≡ record w { count = w.count + 1 } =
      rw (at, open_still) refl in
    let rest =
      passes-open limit window key times (consume key now window ws).1
        (record w { count = w.count + 1 }) (stored ∙ ap some hit) within in
    rw (rest, returned, hit) (ground arith)

-- Of the requests of one key in one window, exactly the first `limit` are let through: the window
-- begins with a request that finds no row of the key, or one whose window is over, and the others
-- come until its end.
pub passes-window :
    (limit window key start : ℕ) (times : List ℕ) (ws : List Window)
    → IsOver key start ws
    → All (λ (t : ℕ). t ≤ start + window) times
    → passes limit window key (start ∷ times) ws ≡ min limit (length times + 1)
unfolding passes rate_limit
passes-window limit window key start times ws over within =
    let (returned, stored) = consume-row_of key start window ws in
    let fresh : Window = record { key = key; count = 1; reset_at = start + window } in
    let hit : hit_new key start window (row_of key ws) ≡ fresh =
      hit_new-over key start window ws over in
    let rest =
      passes-open limit window key times (consume key start window ws).1 fresh
        (stored ∙ ap some hit) within in
    rw (rest, returned, hit) (ground arith)
