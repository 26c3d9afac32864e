-- ===== src/AdminAuth/Access.antt =====
-- adminauth.go `authenticate` and what it reads of a request.
pub mod Sound
use Prim.Native.Char.{Char, code}
use Prim.Native.String.{len}
use Prim.Native.String
use lite2api.Common.{
  ℕ, String, Bool, true, false, not, ◌&&◌, ◌||◌, List, [], ◌∷◌, Option, none, some, ◌==◌, ltb, eqb,
  if◌then◌else◌,
}
use lite2api.Common.Text.{trim_space, equal_fold, is_space}
use lite2api.Common.Assoc.{lookup, erase}
use lite2api.Config.Resolve.{secure_equal}
use lite2api.AdminAuth.{AdminSession, AdminPrincipal, AdminAuthenticator}

-- the headers, the method and the cookie that the source reads
pub record Request : Type 0 where
  pub method : String
  pub authorization : String
  pub admin_token : String
  pub api_key : String
  pub csrf_token : String
  pub cookie : Option String

-- strings.Fields: the word that is open at the left end, and the words behind it
abbrev close_word : String × List String → List String
close_word (word, words) = if word == "" then words else word ∷ words

split_fields : String → String × List String
split_fields String.[] = (String.[], [])
split_fields (String.◌∷◌ c s) =
    let rest = split_fields s in
    if is_space (code c) then (String.[], close_word rest) else (String.◌∷◌ c rest.0, rest.1)

unfoldable pub fields : String → List String
unfolding split_fields
fields s = close_word (split_fields s)

unfoldable pub bearer_token : String → String
unfolding fields
bearer_token header = elim (fields header) [
  | [] ↦ ""
  | a ∷ rest ↦ elim rest [
    | [] ↦ ""
    | b ∷ more ↦ elim more [ [] ↦ if equal_fold a "Bearer" then b else "" | c ∷ cs ↦ "" ]
  ]
]

unfoldable pub admin_bearer_token : Request → String
admin_bearer_token r =
    let token = bearer_token r.authorization in
    if not (token == "") then token else trim_space r.admin_token

pub api_bearer_token : Request → String
api_bearer_token r =
    let token = bearer_token r.authorization in
    if not (token == "") then token else trim_space r.api_key

-- the session of a cookie, as it is left behind: an expired one is removed
unfoldable pub judge_session :
    ℕ
    → ℕ
    → String
    → Option AdminSession
    → AdminAuthenticator
    → AdminAuthenticator × Option AdminPrincipal
judge_session now generation hash none a = (a, none)
judge_session now generation hash (some session) a =
    if not (ltb now session.expires_at)
    then (record a { sessions = erase hash a.sessions }, none)
    else if not (eqb session.generation a.generation)
        || (not (eqb generation 0) && not (eqb session.generation generation))
        || not (hash == session.hash)
    then (a, none)
    else (a, some (record { session = true; csrf = session.csrf }))

module _ (sha256 : String → String) where
  -- behind the check of the token
  unfoldable pub by_cookie :
      ℕ → ℕ → Option String → AdminAuthenticator → AdminAuthenticator × Option AdminPrincipal
  by_cookie now generation none a = (a, none)
  by_cookie now generation (some value) a =
      let hash = sha256 value in
      let judged = judge_session now generation hash (lookup hash a.sessions) a in
      if ltb (len value) 32 || ltb 256 (len value) then (a, none) else judged

  -- the principal, or none where the source returns false
  unfoldable pub authenticate :
      ℕ → Request → String → ℕ → AdminAuthenticator → AdminAuthenticator × Option AdminPrincipal
  authenticate now r expected generation a =
      let token = admin_bearer_token r in
      if not (eqb generation 0) && not (eqb generation a.generation)
      then (a, none)
      else if not (token == "") && not (expected == "") && secure_equal token (expected ∷ [])
      then (a, some (record { session = false; csrf = "" }))
      else by_cookie now generation r.cookie a

pub csrf_allowed : Request → AdminPrincipal → Bool
csrf_allowed r principal =
    let provided = trim_space r.csrf_token in
    if not principal.session || r.method == "GET" || r.method == "HEAD" || r.method == "OPTIONS"
    then true
    else eqb (len provided) (len principal.csrf) && provided == principal.csrf
