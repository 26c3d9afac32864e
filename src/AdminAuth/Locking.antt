-- ===== src/AdminAuth/Locking.antt =====
-- Repeated wrong credentials lock an address out that has no earlier attempt on record.
use lite2api.Common.{
  ℕ, ◌+◌, ◌-◌, ◌*◌, ◌≤◌, ◌<◌, ◌≡◌, refl, String, true, false, not, ◌||◌, [], ◌∷◌, none, some, arith,
  inr, leb, ltb, if-both, ◌==◌, length, if◌then◌else◌,
}
use lite2api.Common.Assoc.{lookup, insert, lookup-keep, lookup-insert_self}
use lite2api.Config.Resolve.{secure_equal}
use lite2api.AdminAuth.{
  minute, LoginAttempt, AdminAuthenticator, login_locked, Tokens, keep_attempt, trim_attempts,
  open_window, add_failure, login, locked,
}

-- an attempt with its window's start, its failures and the end of its lock
abbrev pub attempt_of : ℕ → ℕ → ℕ → LoginAttempt
attempt_of start failures lock = record {
  window_start = some start;
  failures = failures;
  locked_until = lock;
}

trim_attempts-keeps :
    (now : ℕ) (ip : String) (attempt : LoginAttempt) (a : AdminAuthenticator)
    → keep_attempt now attempt ≡ true
    → lookup ip (trim_attempts now (insert ip attempt a.attempts)) ≡ some attempt
unfolding trim_attempts
trim_attempts-keeps now ip attempt a good =
    let stored = lookup-insert_self ip attempt a.attempts in
    if-both (λ m. lookup ip m ≡ some attempt) (leb (length (insert ip attempt a.attempts)) 1024)
      stored (lookup-keep (λ k v. keep_attempt now v) ip attempt _ stored good)

-- what a failed login leaves behind
abbrev pub after_failure :
    (String → String)
    → String
    → String
    → String
    → Tokens
    → ℕ
    → AdminAuthenticator
    → AdminAuthenticator
after_failure sha256 ip candidate expected tokens now a =
    (login sha256 now ip candidate expected 0 tokens a).0

module _ (sha256 : String → String) (ip candidate expected : String) (tokens : Tokens)
    (wrong : (expected == "" || not (secure_equal candidate (expected ∷ []))) ≡ true) where
  -- one failed attempt
  fail_login :
      (now start : ℕ) (attempt : LoginAttempt) (a : AdminAuthenticator)
      → locked now (lookup ip a.attempts) ≡ false
      → add_failure now (open_window now (lookup ip a.attempts)) ≡ attempt
      → keep_attempt now attempt ≡ true
      → lookup ip (login sha256 now ip candidate expected 0 tokens a).0.attempts ≡ some attempt
  unfolding login
  fail_login now start attempt a unlocked next kept =
      rw (unlocked, wrong, next) (trim_attempts-keeps now ip attempt a kept)

  first_failure :
      (now : ℕ) (a : AdminAuthenticator)
      → lookup ip a.attempts ≡ none
      → lookup ip (login sha256 now ip candidate expected 0 tokens a).0.attempts
        ≡ some (attempt_of now 1 0)
  unfolding open_window add_failure keep_attempt
  first_failure now a none_yet =
      fail_login now now (attempt_of now 1 0) a (rw none_yet refl) (rw none_yet refl) (ground arith)

  next_failure :
      (now start k : ℕ) (a : AdminAuthenticator)
      → k < 5
      → now ≤ start + 5 * minute
      → lookup ip a.attempts ≡ some (attempt_of start k 0)
      → lookup ip (login sha256 now ip candidate expected 0 tokens a).0.attempts
        ≡ some (attempt_of start (k + 1) (if leb 5 (k + 1) then now + 15 * minute else 0))
  unfolding open_window add_failure keep_attempt
  next_failure now start k a few soon stored =
      let within : ltb (5 * minute) (now - start) ≡ false = ground arith in
      fail_login now start _ a (rw stored (ground arith)) (rw (stored, within) refl) (ground arith)

  locked_out :
      (t : ℕ) (right : String) (attempt : LoginAttempt) (a : AdminAuthenticator)
      → lookup ip a.attempts ≡ some attempt
      → ltb t attempt.locked_until ≡ true
      → login sha256 t ip right expected 0 tokens a ≡ (a, inr login_locked)
  unfolding login
  locked_out t right attempt a stored lock = rw (stored, lock) refl

  -- Where an address has no attempt on record, and all logins leave the generation open: behind five
  -- logins of it with one wrong credential, the last four at most five minutes after the first, every
  -- login of that address before fifteen minutes from the fifth are over is refused, the right
  -- credential's too, and changes nothing.
  pub login-locks :
      (t1 t2 t3 t4 t5 t : ℕ) (right : String) (a : AdminAuthenticator)
      → lookup ip a.attempts ≡ none
      → t2 ≤ t1 + 5 * minute
      → t3 ≤ t1 + 5 * minute
      → t4 ≤ t1 + 5 * minute
      → t5 ≤ t1 + 5 * minute
      → t < t5 + 15 * minute
      → let fail = after_failure sha256 ip candidate expected tokens in
        let out = fail t5 (fail t4 (fail t3 (fail t2 (fail t1 a)))) in
        login sha256 t ip right expected 0 tokens out ≡ (out, inr login_locked)
  login-locks t1 t2 t3 t4 t5 t right a clean w2 w3 w4 w5 soon =
      let s1 = first_failure t1 a clean in
      let s2 = next_failure t2 t1 1 _ (omega arith) w2 s1 in
      let s3 = next_failure t3 t1 2 _ (omega arith) w3 s2 in
      let s4 = next_failure t4 t1 3 _ (omega arith) w4 s3 in
      let s5 = next_failure t5 t1 4 _ (omega arith) w5 s4 in
      locked_out t right _ _ s5 (ground arith)
