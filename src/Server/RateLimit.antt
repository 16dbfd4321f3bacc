-- ===== src/Server/RateLimit.antt =====
-- src/server/auth.rs: the table of login attempts stays bounded, and counts within a window.
use togewire.Prelude.{
  ℕ, zero, suc, ◌+◌, ◌≤◌, ◌<◌, ◌≡◌, ◌≢◌, refl, sym, ap, ◌∙◌, Bool, none, some, List, [], ◌∷◌, Text,
  Text-discrete, count, arith, ltb, leb, length, Bool-cases, Option-cases, inl, inr,
}
use togewire.Prelude.Maps.{
  get, insert, remove, keys, length-remove, length-remove-lt, length-remove-le, get-insert_self,
  get-insert_ne,
}
use togewire.Server.Auth.{
  max_login_attempts, rate_limit_window, max_entries, Attempts, elapsed, retain_recent, oldest_from,
  drop_oldest, make_room, counted, register_login_attempt,
}

-- The entry that goes is one of the table's.
count-oldest_from :
    (ip : Text) (start : ℕ) (m before : Attempts)
    → 1 ≤ count Text-discrete ip (keys before)
    → ((k : Text) → count Text-discrete k (keys m) ≤ count Text-discrete k (keys before))
    → 1 ≤ count Text-discrete (oldest_from ip start m) (keys before)
unfolding oldest_from count
count-oldest_from ip start [] before h all = h
count-oldest_from ip start ((ip', (n, s)) ∷ m) before h all = elim (Bool-cases (ltb s start)) [
  | inl older ↦
      rw older
        (count-oldest_from ip' s m before (ground (arith, all ip')) (λ k. ground (arith, all k)))
  | inr newer ↦ rw newer (count-oldest_from ip start m before h (λ k. ground (arith, all k)))
]

drop_oldest-lt :
    (fuel : ℕ) (m : Attempts) → length m ≤ fuel → length (drop_oldest fuel m) < max_entries
unfolding drop_oldest count
drop_oldest-lt zero [] h = omega arith
drop_oldest-lt zero (e ∷ m) h = absurd (omega arith)
drop_oldest-lt (suc fuel) [] h = omega arith
drop_oldest-lt (suc fuel) ((ip, (n, start)) ∷ m) h = ground (
  arith,
  smaller,
  drop_oldest-lt fuel (remove Text-discrete (oldest_from ip start m) ((ip, (n, start)) ∷ m)),
)
  where
    smaller :
        length (remove Text-discrete (oldest_from ip start m) ((ip, (n, start)) ∷ m)) ≤ length m
    smaller = omega (
      arith,
      length-remove {V = ℕ × ℕ} Text-discrete (oldest_from ip start m) ((ip, (n, start)) ∷ m),
      count-oldest_from ip start m ((ip, (n, start)) ∷ m) (ground arith) (λ k. ground arith),
    )

make_room-lt : (now : ℕ) (m : Attempts) → length (make_room now m) < max_entries
unfolding make_room
make_room-lt now m = drop_oldest-lt _ (retain_recent now m) (omega arith)

length-insert-le :
    (ip : Text) (e : ℕ × ℕ) (m : Attempts) → length (insert Text-discrete ip e m) ≤ length m + 1
unfolding insert
length-insert-le ip e m = omega (arith, length-remove-le Text-discrete ip m)

-- The table of attempts never comes to hold more than a thousand clients, whoever tries to log
-- in.
pub register_login_attempt-bounded :
    (now : ℕ) (ip : Text) (m : Attempts)
    → length m ≤ max_entries
    → length (register_login_attempt now ip m).0 ≤ max_entries
unfolding register_login_attempt
register_login_attempt-bounded now ip m h = elim (Option-cases (get Text-discrete ip m)) [
  | inl e ↦ ground (
    arith,
    make_room-lt now m,
    length-insert-le ip (counted now (get Text-discrete ip (make_room now m))) (make_room now m),
    length-insert-le ip (counted now none) m,
  )
  | inr (v, e) ↦ ground (arith, known v (λ q. cc) (counted now (some v)))
]
  where
    known :
        (v : ℕ × ℕ)
        → get Text-discrete ip m ≢ none
        → (w : ℕ × ℕ) → length (insert Text-discrete ip w m) ≤ length m
    known v there w = unfold insert in length-remove-lt Text-discrete ip m there

-- Attempts by many clients, in time order, and the answers that one of them gets.
unfoldable pub verdicts : Text → List (ℕ × Text) → Attempts → List Bool
verdicts ip [] m = []
verdicts ip ((now, who) ∷ events) m =
    let rest = verdicts ip events (register_login_attempt now who m).0 in
    elim (Text-discrete who ip) [
      | yes _ ↦ (register_login_attempt now who m).1 ∷ rest
      | no _ ↦ rest
    ]

-- The answers after `n` attempts in a window.
unfoldable pub answers : Text → ℕ → List (ℕ × Text) → List Bool
answers ip n [] = []
answers ip n ((now, who) ∷ events) = elim (Text-discrete who ip) [
  | yes _ ↦ leb (n + 1) max_login_attempts ∷ answers ip (n + 1) events
  | no _ ↦ answers ip n events
]

abbrev pub InWindow : ℕ → List (ℕ × Text) → Type 0
InWindow start [] = Unit {0}
InWindow start ((now, who) ∷ events) =
    (elapsed now start ≤ rate_limit_window) × InWindow start events

-- An attempt where no room has to be made.
register_roomy :
    (now : ℕ) (ip : Text) (m : Attempts)
    → length m < max_entries
    → register_login_attempt now ip m ≡ (
      insert Text-discrete ip (counted now (get Text-discrete ip m)) m,
      leb (counted now (get Text-discrete ip m)).0 max_login_attempts,
    )
unfolding register_login_attempt
register_roomy now ip m h = ground arith

counted_in_window :
    (now n start : ℕ)
    → elapsed now start ≤ rate_limit_window
    → counted now (some (n, start)) ≡ (n + 1, start)
unfolding counted
counted_in_window now n start h = ground arith

-- While its window lasts, a client of whom `n` attempts are on record is let through up to the fifth
-- and refused from the sixth on, whatever other clients do meanwhile, as long as the table has room
-- for all of them.
pub verdicts-eq-answers :
    (ip : Text) (events : List (ℕ × Text)) (m : Attempts) (n start : ℕ)
    → get Text-discrete ip m ≡ some (n, start)
    → InWindow start events
    → length m + length events ≤ max_entries
    → verdicts ip events m ≡ answers ip n events
unfolding verdicts answers
verdicts-eq-answers ip [] m n start h w room = refl
verdicts-eq-answers ip ((now, who) ∷ events) m n start h w room = elim (Text-discrete who ip) [
  | yes p ↦ ground (
    arith,
    own_state p,
    own_answer p,
    verdicts-eq-answers ip events after (n + 1) start (own_state p) w.1 room',
  )
  | no q ↦ ground (arith, verdicts-eq-answers ip events after n start (other_state q) w.1 room')
]
  where
    after : Attempts
    after = (register_login_attempt now who m).0

    roomy : register_login_attempt now who m ≡ (
      insert Text-discrete who (counted now (get Text-discrete who m)) m,
      leb (counted now (get Text-discrete who m)).0 max_login_attempts,
    )
    roomy = register_roomy now who m (omega arith)

    state_lem : after ≡ insert Text-discrete who (counted now (get Text-discrete who m)) m
    state_lem = ap (λ r. r.0) roomy

    same : who ≡ ip → counted now (get Text-discrete who m) ≡ (n + 1, start)
    same p =
        ap (λ k. counted now (get Text-discrete k m)) p
        ∙ ap (counted now) h
        ∙ counted_in_window now n start w.0

    own_state : who ≡ ip → get Text-discrete ip after ≡ some (n + 1, start)
    own_state p =
        ap (λ k. get Text-discrete k after) (sym p)
        ∙ ap (get Text-discrete who) state_lem
        ∙ get-insert_self Text-discrete who _ m
        ∙ ap some (same p)

    own_answer : who ≡ ip → (register_login_attempt now who m).1 ≡ leb (n + 1) max_login_attempts
    own_answer p = ap (λ r. r.1) roomy ∙ ap (λ c. leb c.0 max_login_attempts) (same p)

    other_state : ¬ (who ≡ ip) → get Text-discrete ip after ≡ some (n, start)
    other_state q =
        ap (get Text-discrete ip) state_lem ∙ get-insert_ne Text-discrete who ip _ m q ∙ h

    room' : length after + length events ≤ max_entries
    room' =
        omega (
          arith,
          ap length state_lem,
          length-insert-le who (counted now (get Text-discrete who m)) m,
        )
