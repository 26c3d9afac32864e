-- ===== src/AdminAuth.antt =====
-- internal/gateway/adminauth.go: administrators log in, get a session, and are recognised by it.
mod Examples
pub mod Locking
pub mod Sessions
pub mod Access
use Prim.Native.Char.{code}
use Prim.Native.String.{len}
use Prim.Native.String
use lite2api.Common.{
  ℕ, ◌+◌, ◌-◌, ◌*◌, ◌%◌, ◌^◌, String, Bool, true, false, not, ◌&&◌, ◌||◌, List, [], ◌∷◌, Option,
  none, some, length, ◌==◌, leb, ltb, eqb, if◌then◌else◌, inl, inr, ◌⊎◌,
}
use lite2api.Common.Text.{trim_space, equal_fold, is_space}
use lite2api.Common.Assoc.{Assoc, lookup, insert, erase, keep}
use lite2api.Config.Resolve.{secure_equal}

-- Times are nanoseconds; digests are texts.
abbrev pub minute : ℕ
minute = 60000000000

pub record AdminSession : Type 0 where
  pub hash : String
  pub csrf : String
  pub expires_at : ℕ
  pub created_at : ℕ
  pub generation : ℕ

-- `window_start` is none for the zero time
pub record LoginAttempt : Type 0 where
  pub window_start : Option ℕ
  pub failures : ℕ
  pub locked_until : ℕ

pub record AdminPrincipal : Type 0 where
  pub session : Bool
  pub csrf : String

pub record AdminAuthenticator : Type 0 where
  pub sessions : Assoc AdminSession
  pub attempts : Assoc LoginAttempt
  pub ttl : ℕ
  pub generation : ℕ

pub data AdminError : Type 0 where
  generation_changed login_locked invalid_credentials no_entropy : AdminError

-- The token and the token against request forgery, or none where the random source fails; the second
-- is read behind the first.
pub record Tokens : Type 0 where
  pub token : Option String
  pub csrf : Option String

pub new_admin_authenticator : ℕ → AdminAuthenticator
new_admin_authenticator ttl = record { sessions = []; attempts = []; ttl = ttl; generation = 1 }

-- A counter of 64 bits that skips 0.
pub next_generation : ℕ → ℕ
next_generation g = let next = (g + 1) % 2 ^ 64 in if eqb next 0 then 1 else next

pub reconfigure : ℕ → Bool → AdminAuthenticator → AdminAuthenticator
unfolding next_generation
reconfigure ttl revoke a =
    if revoke
    then record a { ttl = ttl; generation = next_generation a.generation; sessions = [] }
    else record a { ttl = ttl }

pub live_session : ℕ → AdminSession → Bool
live_session now session = ltb now session.expires_at

pub remove_expired_sessions : ℕ → AdminAuthenticator → AdminAuthenticator
remove_expired_sessions now a = record a {
  sessions = keep (λ hash session. live_session now session) a.sessions;
}

-- one round of the loop that looks for the oldest session: the hash and time kept so far
pub older_of : String × ℕ → String × AdminSession → String × ℕ
older_of best e = if ltb e.1.created_at best.1 then (e.0, e.1.created_at) else best

pub oldest_from : String × ℕ → Assoc AdminSession → String × ℕ
unfolding older_of
oldest_from best [] = best
oldest_from best (e ∷ rest) = oldest_from (older_of best e) rest

-- the zero time stands before the first round only
pub oldest_session : Assoc AdminSession → Option String
oldest_session [] = none
oldest_session (e ∷ rest) = some (oldest_from (e.0, e.1.created_at) rest).0

abbrev pub max_sessions : ℕ
max_sessions = 32

pub make_room : Assoc AdminSession → Assoc AdminSession
make_room sessions =
    if leb max_sessions (length sessions)
    then elim (oldest_session sessions) [ none ↦ sessions | some hash ↦ erase hash sessions ]
    else sessions

keep_attempt : ℕ → LoginAttempt → Bool
keep_attempt now attempt = not (
    (elim attempt.window_start [ none ↦ true | some start ↦ ltb (30 * minute) (now - start) ])
    && not (ltb now attempt.locked_until))

pub trim_attempts : ℕ → Assoc LoginAttempt → Assoc LoginAttempt
trim_attempts now attempts =
    if leb (length attempts) 1024
    then attempts
    else keep (λ ip attempt. keep_attempt now attempt) attempts

-- the attempt of an address with its window, a new one where there is none or it is over
pub open_window : ℕ → Option LoginAttempt → LoginAttempt
open_window now found =
    let fresh : LoginAttempt = record { window_start = some now; failures = 0; locked_until = 0 } in
    elim found [
      | none ↦ fresh
      | some attempt ↦ elim attempt.window_start [
        | none ↦ fresh
        | some start ↦ if ltb (5 * minute) (now - start) then fresh else attempt
      ]
    ]

-- one more failure
pub add_failure : ℕ → LoginAttempt → LoginAttempt
add_failure now attempt =
    let failures = attempt.failures + 1 in
    record attempt {
      failures = failures;
      locked_until = if leb 5 failures then now + 15 * minute else attempt.locked_until;
    }

abbrev pub locked : ℕ → Option LoginAttempt → Bool
locked now found = elim found [ none ↦ false | some attempt ↦ ltb now attempt.locked_until ]

-- SHA-256 of a token, as the key of its session
module _ (sha256 : String → String) where
  pub issue_session_locked :
      ℕ → Tokens → AdminAuthenticator → AdminAuthenticator × ((String × String) ⊎ AdminError)
  issue_session_locked now tokens a =
      let cleared = remove_expired_sessions now a in
      let ready = record cleared { sessions = make_room cleared.sessions } in
      elim tokens.token [
        | none ↦ (ready, inr no_entropy)
        | some token ↦ elim tokens.csrf [
          | none ↦ (ready, inr no_entropy)
          | some csrf ↦
              let hash = sha256 token in
              let session : AdminSession = record {
                hash = hash;
                csrf = csrf;
                expires_at = now + a.ttl;
                created_at = now;
                generation = a.generation;
              } in
              (record ready { sessions = insert hash session ready.sessions }, inl (token, csrf))
        ]
      ]

  -- `login`; generation 0 asks for no generation
  pub login :
      ℕ
      → String
      → String
      → String
      → ℕ
      → Tokens
      → AdminAuthenticator
      → AdminAuthenticator × ((String × String) ⊎ AdminError)
  login now client_ip candidate expected generation tokens a =
      let found = lookup client_ip a.attempts in
      let failed = add_failure now (open_window now found) in
      let welcome =
        issue_session_locked now tokens (record a { attempts = erase client_ip a.attempts }) in
      if not (eqb generation 0) && not (eqb generation a.generation)
      then (a, inr generation_changed)
      else if locked now found
      then (a, inr login_locked)
      else if expected == "" || not (secure_equal candidate (expected ∷ []))
      then (
        record a { attempts = trim_attempts now (insert client_ip failed a.attempts) },
        inr invalid_credentials,
      )
      else welcome

  pub issue_session :
      ℕ
      → String
      → ℕ
      → Tokens
      → AdminAuthenticator
      → AdminAuthenticator × ((String × String) ⊎ AdminError)
  issue_session now client_ip generation tokens a =
      let issued =
        issue_session_locked now tokens (record a { attempts = erase client_ip a.attempts }) in
      if not (eqb generation 0) && not (eqb generation a.generation)
      then (a, inr generation_changed)
      else issued

  -- none is a missing cookie
  pub logout : Option String → AdminAuthenticator → AdminAuthenticator
  logout none a = a
  logout (some value) a = record a { sessions = erase (sha256 value) a.sessions }
