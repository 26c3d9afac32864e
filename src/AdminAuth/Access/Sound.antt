-- ===== src/AdminAuth/Access/Sound.antt =====
-- Who is recognised as an administrator.
use Prim.Native.String.{len}
use mathlib.Core.Path.{subst}
use lite2api.Common.{
  if-both, ℕ, ◌<◌, ◌≡◌, ◌≢◌, refl, String, true, not, ◌&&◌, ◌||◌, Option, none, some, ◌⊎◌, inl, inr,
  arith, Bool-cases, ltb, eqb, eq_iff, ◌==◌, [], ◌∷◌,
}
use lite2api.Common.Assoc.{lookup}
use lite2api.Config.Resolve.{secure_equal}
use lite2api.AdminAuth.{AdminSession, AdminPrincipal, AdminAuthenticator}
use lite2api.AdminAuth.Access.{by_cookie, Request, admin_bearer_token, judge_session, authenticate}

-- A request is of the state's generation, where it names one.
abbrev pub Current : ℕ → AdminAuthenticator → Type 0
Current generation a = (generation ≡ 0) ⊎ (generation ≡ a.generation)

-- The request shows the administrator's token.
abbrev pub ByToken : Request → String → Type 0
ByToken r expected = (expected ≢ "") × (secure_equal (admin_bearer_token r) (expected ∷ []) ≡ true)

-- The request shows the cookie of a stored session, not expired, of the current generation.
pub record BySession (sha256 : String → String) (now : ℕ) (r : Request) (a : AdminAuthenticator)
    (p : AdminPrincipal) : Type 0 where
  pub value : String
  pub live : AdminSession
  pub shown : r.cookie ≡ some value
  pub stored : lookup (sha256 value) a.sessions ≡ some live
  pub digest : sha256 value ≡ live.hash
  pub unexpired : now < live.expires_at
  pub generation : live.generation ≡ a.generation
  pub csrf : p.csrf ≡ live.csrf

abbrev Recognised :
    (String → String)
    → ℕ
    → Request
    → String
    → ℕ
    → AdminAuthenticator
    → Option AdminPrincipal
    → Type 0
Recognised sha256 now r expected generation a none = Unit
Recognised sha256 now r expected generation a (some p) =
    Current generation a × (ByToken r expected ⊎ BySession sha256 now r a p)

module _ (sha256 : String → String) (now : ℕ) (r : Request) (expected : String) (generation : ℕ)
    (a : AdminAuthenticator) where
  judge_session-Recognised :
      (value : String) (found : Option AdminSession)
      → Current generation a
      → r.cookie ≡ some value
      → lookup (sha256 value) a.sessions ≡ found
      → Recognised sha256 now r expected generation a
          (judge_session now generation (sha256 value) found a).1
  unfolding judge_session
  judge_session-Recognised value none c shown stored = tt
  judge_session-Recognised value (some session) c shown stored =
      elim (Bool-cases (not (ltb now session.expires_at))) [
        | inl expired ↦ rw expired tt
        | inr unexpired ↦
            elim (Bool-cases (
              not (eqb session.generation a.generation)
              || (not (eqb generation 0) && not (eqb session.generation generation))
              || not (sha256 value == session.hash))) [
                | inl other ↦ rw (unexpired, other) tt
                | inr same ↦
                    rw (unexpired, same)
                      (
                        c,
                        inr (record {
                          value = value;
                          live = session;
                          shown = shown;
                          stored = stored;
                          digest = ground (arith, eq_iff (sha256 value) session.hash);
                          unexpired = ground arith;
                          generation = ground arith;
                          csrf = refl;
                        }),
                      )
              ]
      ]

  by_cookie-Recognised :
      (cookie : Option String)
      → Current generation a
      → r.cookie ≡ cookie
      → Recognised sha256 now r expected generation a (by_cookie sha256 now generation cookie a).1
  unfolding by_cookie
  by_cookie-Recognised none c shown = tt
  by_cookie-Recognised (some value) c shown =
      if-both
        (λ (o : AdminAuthenticator × Option AdminPrincipal).
          Recognised sha256 now r expected generation a o.1)
        (ltb (len value) 32 || ltb 256 (len value)) tt
        (judge_session-Recognised value (lookup (sha256 value) a.sessions) c shown refl)

  authenticate-Recognised :
      Recognised sha256 now r expected generation a
        (authenticate sha256 now r expected generation a).1
  unfolding authenticate
  authenticate-Recognised =
      elim (Bool-cases (not (eqb generation 0) && not (eqb generation a.generation))) [
        | inl changed ↦ rw changed tt
        | inr current ↦
            let c : Current generation a = ground arith in
            elim (Bool-cases (
              not (admin_bearer_token r == "")
              && not (expected == "")
              && secure_equal (admin_bearer_token r) (expected ∷ []))) [
                | inl token ↦
                    rw (current, token) (c, inl (ground (arith, eq_iff expected ""), ground arith))
                | inr no_token ↦ rw (current, no_token) (by_cookie-Recognised r.cookie c refl)
              ]
      ]

-- Whoever is recognised named no other generation than the current one, and showed the token that is
-- expected, which is not empty, or the cookie of a session that is stored under its digest, has not
-- expired and was issued in the current generation.
pub authenticate_sound :
    (sha256 : String → String) (now : ℕ) (r : Request) (expected : String) (generation : ℕ)
    (a : AdminAuthenticator) (p : AdminPrincipal)
    → (authenticate sha256 now r expected generation a).1 ≡ some p
    → Current generation a × (ByToken r expected ⊎ BySession sha256 now r a p)
authenticate_sound sha256 now r expected generation a p h =
    subst (Recognised sha256 now r expected generation a) h
      (authenticate-Recognised sha256 now r expected generation a)
