-- ===== src/AdminAuth/Examples.antt =====
-- Runs of the administrators' sessions on concrete data.
use lite2api.Common.{◌≡◌, ◌⊎◌, refl, String, true, [], ◌∷◌, some, inr, arith}
use lite2api.AdminAuth.{
  AdminAuthenticator, AdminSession, AdminPrincipal, Tokens, login, issue_session, login_locked,
}
use lite2api.Common.Text.{trim_space}
use lite2api.Common.Assoc.{lookup}
use lite2api.Config.Resolve.{secure_equal}
use lite2api.AdminAuth.Access.{
  by_cookie, judge_session, admin_bearer_token, bearer_token, fields, Request, authenticate,
}
use lite2api.AdminAuth.Access.Sound.{Current, ByToken, BySession, authenticate_sound}
use lite2api.AdminAuth.Sessions.{Bounded, login-Bounded, issue_session-Bounded}
use lite2api.AdminAuth.Locking.{login-locks, after_failure}

abbrev tokens : Tokens
tokens = record { token = some "t"; csrf = some "c" }

abbrev fresh : AdminAuthenticator
fresh = record { sessions = []; attempts = []; ttl = 60; generation = 1 }

abbrev value : String
value = "0123456789abcdef0123456789abcdef"

abbrev session : AdminSession
session = record { hash = value; csrf = "c"; expires_at = 90; created_at = 30; generation = 1 }

abbrev opened : AdminAuthenticator
opened = record fresh { sessions = (value, session) ∷ [] }

abbrev request : Request
request = record {
  method = "GET";
  authorization = "";
  admin_token = "";
  api_key = "";
  csrf_token = "";
  cookie = some value;
}

abbrev principal : AdminPrincipal
principal = record { session = true; csrf = "c" }

authenticate-run : (authenticate (λ s. s) 50 request "secret" 1 opened).1 ≡ some principal
unfolding authenticate by_cookie judge_session admin_bearer_token bearer_token fields trim_space
    lookup
authenticate-run = refl

authenticate_sound_example :
    Current 1 opened × (ByToken request "secret" ⊎ BySession (λ s. s) 50 request opened principal)
authenticate_sound_example =
    authenticate_sound (λ s. s) 50 request "secret" 1 opened principal authenticate-run

login-Bounded_example : Bounded (login (λ s. s) 50 "ip" "secret" "secret" 1 tokens opened).0
login-Bounded_example =
    login-Bounded (λ s. s) 50 tokens "ip" "secret" "secret" 1 opened (omega arith)

issue_session-Bounded_example : Bounded (issue_session (λ s. s) 50 "ip" 0 tokens opened).0
issue_session-Bounded_example = issue_session-Bounded (λ s. s) 50 tokens "ip" 0 opened (omega arith)

abbrev five : AdminAuthenticator
five =
    let fail = after_failure (λ s. s) "ip" "guess" "secret" tokens in
    fail 5 (fail 4 (fail 3 (fail 2 (fail 1 fresh))))

login-locks_example :
    login (λ s. s) 100 "ip" "secret" "secret" 0 tokens five ≡ (five, inr login_locked)
unfolding secure_equal lookup
login-locks_example =
    login-locks (λ s. s) "ip" "guess" "secret" tokens refl 1 2 3 4 5 100 "secret" fresh refl
      (omega arith) (omega arith) (omega arith) (omega arith) (omega arith)
