-- ===== src/AdminAuth/Sessions.antt =====
-- How many sessions there are.
use lite2api.Common.{
  sym, ◌⊎◌, ℕ, ◌≤◌, ◌<◌, ◌≡◌, refl, String, not, ◌&&◌, ◌||◌, [], ◌∷◌, arith, Option-cases, inl, inr,
  length, ltb, ◌==◌, eq_iff, if-both, eqb,
}
use lite2api.Common.Assoc.{
  length-erase-le, Assoc, lookup, erase, keep, length-insert-le, length-keep-le,
}
use lite2api.Config.Resolve.{secure_equal}
use lite2api.AdminAuth.{
  live_session, older_of, oldest_from, AdminSession, AdminAuthenticator, AdminError, Tokens,
  oldest_session, make_room, max_sessions, remove_expired_sessions, issue_session_locked, login,
  issue_session, locked,
}

abbrev Listed : String → Assoc AdminSession → Type 0
Listed k [] = ⊥
Listed k ((j, v) ∷ m) = (j ≡ k) ⊎ Listed k m

length-erase-lt : (k : String) (m : Assoc AdminSession) → Listed k m → length (erase k m) < length m
unfolding erase
length-erase-lt k [] h = absurd h
length-erase-lt k ((j, v) ∷ m) (inl e) = ground (arith, eq_iff j k, length-erase-le k m)
length-erase-lt k ((j, v) ∷ m) (inr h) = ground (arith, length-erase-lt k m h)

oldest_from-Listed :
    (best : String × ℕ) (m : Assoc AdminSession)
    → ((oldest_from best m).0 ≡ best.0) ⊎ Listed (oldest_from best m).0 m
unfolding oldest_from older_of
oldest_from-Listed best [] = inl refl
oldest_from-Listed best ((j, v) ∷ m) =
    if-both
      (λ (y : String × ℕ).
        ((oldest_from y m).0 ≡ y.0) ⊎ Listed (oldest_from y m).0 m
        → ((oldest_from y m).0 ≡ best.0) ⊎ Listed (oldest_from y m).0 ((j, v) ∷ m))
      (ltb v.created_at best.1)
      (λ found. elim found [ inl here ↦ inr (inl (sym here)) | inr later ↦ inr (inr later) ])
      (λ found. elim found [ inl here ↦ inl here | inr later ↦ inr (inr later) ])
      (oldest_from-Listed (older_of best (j, v)) m)

make_room-lt : (m : Assoc AdminSession) → length m ≤ 32 → length (make_room m) < 32
unfolding make_room oldest_session
make_room-lt [] h = omega arith
make_room-lt ((k, v) ∷ m) h =
    let oldest = (oldest_from (k, v.created_at) m).0 in
    let found : Listed oldest ((k, v) ∷ m) = elim (oldest_from-Listed (k, v.created_at) m) [
      | inl first ↦ inl (sym first)
      | inr later ↦ inr later
    ] in
    ground (arith, length-erase-lt oldest ((k, v) ∷ m) found)

-- never more than 32 sessions
abbrev pub Bounded : AdminAuthenticator → Type 0
Bounded a = length a.sessions ≤ max_sessions

module _ (sha256 : String → String) (now : ℕ) (tokens : Tokens) where
  issue_session_locked-Bounded :
      (a : AdminAuthenticator) → Bounded a → Bounded (issue_session_locked sha256 now tokens a).0
  unfolding issue_session_locked remove_expired_sessions
  issue_session_locked-Bounded a h =
      let live =
        keep (λ (hash : String) (session : AdminSession). live_session now session) a.sessions in
      let room : length (make_room live) < 32 =
        make_room-lt live
          (omega (arith, length-keep-le (λ hash session. live_session now session) a.sessions)) in
      elim (Option-cases tokens.token) [
        | inl missing ↦ rw missing (omega arith)
        | inr (token, t) ↦ elim (Option-cases tokens.csrf) [
          | inl missing ↦ rw (t, missing) (omega arith)
          | inr (csrf, c) ↦
              rw (t, c) (omega (arith, length-insert-le (sha256 token) _ (make_room live)))
        ]
      ]

  abbrev Out : AdminAuthenticator × ((String × String) ⊎ AdminError) → Type 0
  Out r = Bounded r.0

  -- Logging in, whatever comes of it, keeps at most 32 sessions.
  pub login-Bounded :
      (client_ip candidate expected : String) (generation : ℕ) (a : AdminAuthenticator)
      → Bounded a
      → Bounded (login sha256 now client_ip candidate expected generation tokens a).0
  unfolding login
  login-Bounded client_ip candidate expected generation a h =
      if-both Out (not (eqb generation 0) && not (eqb generation a.generation)) h (
        if-both Out (locked now (lookup client_ip a.attempts)) h (
          if-both Out (expected == "" || not (secure_equal candidate (expected ∷ []))) h
            (issue_session_locked-Bounded (record a { attempts = erase client_ip a.attempts }) h)))

  -- Issuing a session, whatever comes of it, keeps at most 32 sessions.
  pub issue_session-Bounded :
      (client_ip : String) (generation : ℕ) (a : AdminAuthenticator)
      → Bounded a
      → Bounded (issue_session sha256 now client_ip generation tokens a).0
  unfolding issue_session
  issue_session-Bounded client_ip generation a h =
      if-both Out (not (eqb generation 0) && not (eqb generation a.generation)) h
        (issue_session_locked-Bounded (record a { attempts = erase client_ip a.attempts }) h)
