-- ===== src/Config/Evidence/Keys.antt =====
-- The keys of scoped facts: parsing gives back what a key was built from, on the program's vocabulary.
use Prim.Native.Char.{Char, code}
use Prim.Native.String.{[], ◌∷◌, ◌++◌ as append}
use text.Mathlib.TextLemmas.{nil-append, cons-append, append-nil, append_assoc}
use lite2api.Common.{
  ℕ, String, ◌≡◌, refl, Bool, true, false, not, ◌&&◌, ◌||◌, List, ◌==◌, eqb, contains, ◌≢◌, arith,
  ap, sym, ◌∙◌, if◌then◌else◌, All-contains, eq_refl, eq_iff, text_cases, inl, inr, Bool-cases,
}
use lite2api.Common.Text.{cut}
use lite2api.Config.Operations.{valid_operations, valid_operation}
use lite2api.Config.Resolve.{valid_reasoning_effort}
use lite2api.Config.Evidence.{
  colon, hash_sign, at_sign, with_credential, with_effort, capability_feature_key,
  valid_capability_feature, valid_public_credential_id, scope_of, parse_capability_feature_key,
}

-- No character of the text is the separator.
abbrev lacks : String → ℕ → Bool
lacks [] sep = true
lacks (c ∷ s) sep = not (eqb (code c) sep) && lacks s sep

cut-append :
    (s : String) (d : Char) (t : String) (sep : ℕ)
    → lacks s sep ≡ true
    → code d ≡ sep
    → cut (append s (d ∷ t)) sep ≡ (s, t, true)
unfolding cut
cut-append [] d t sep h e = rw nil-append (ground arith)
cut-append (c ∷ s) d t sep h e = rw cons-append (ground (arith, cut-append s d t sep))

cut_missing : (s : String) (sep : ℕ) → lacks s sep ≡ true → cut s sep ≡ (s, [], false)
unfolding cut
cut_missing [] sep h = refl
cut_missing (c ∷ s) sep h = ground (arith, cut_missing s sep)

lacks-append : (s t : String) (sep : ℕ) → lacks (append s t) sep ≡ lacks s sep && lacks t sep
lacks-append [] t sep = rw nil-append
lacks-append (c ∷ s) t sep = rw cons-append (ground (arith, lacks-append s t sep))

with_effort_split : (e t : String) → with_effort e t ≡ append (with_effort e "") t
unfolding with_effort
with_effort_split e t = elim (Bool-cases (not (e == "") && not (e == "auto"))) [
  | inl written ↦ rw written (rw (cons-append, append-nil) refl)
  | inr omitted ↦ rw omitted (rw nil-append refl)
]

lacks-with_effort : (e : String) → lacks e b'@' ≡ true → lacks (with_effort e "") b'@' ≡ true
unfolding with_effort
lacks-with_effort e h = elim (Bool-cases (not (e == "") && not (e == "auto"))) [
  | inl written ↦ rw written (rw append-nil h)
  | inr omitted ↦ rw omitted refl
]

-- the first `Cut` gives back what stands before the credential, and the credential
cut_scope :
    (f e k : String)
    → lacks f b'@' ≡ true
    → lacks e b'@' ≡ true
    → ((cut (append f (with_effort e (with_credential k))) b'@').0 ≡ append f (with_effort e ""))
      × ((cut (append f (with_effort e (with_credential k))) b'@').1 ≡ k)
unfolding with_credential
cut_scope f e k hf he =
    let before = append f (with_effort e "") in
    let clean : lacks before b'@' ≡ true =
      ground (arith, lacks-append f (with_effort e "") b'@', lacks-with_effort e he) in
    elim (text_cases k "") [
      | inl (empty, e_k) ↦
          let c = cut_missing before b'@' clean in
          rw empty (ap (λ p. p.0) c, ap (λ p. p.1) c ∙ sym e_k)
      | inr (there, _) ↦
          let c = cut-append before at_sign k b'@' clean refl in
          rw (there, with_effort_split e (at_sign ∷ k), ← append_assoc)
            (ap (λ p. p.0) c, ap (λ p. p.1) c)
    ]

-- the second `Cut` gives back the feature, and the effort that the key names
cut_effort :
    (f e : String)
    → lacks f b'#' ≡ true
    → e ≢ ""
    → ((cut (append f (with_effort e "")) b'#').0 ≡ f)
      × ((if (cut (append f (with_effort e "")) b'#').1 == ""
            then "auto"
            else (cut (append f (with_effort e "")) b'#').1)
          ≡ e)
unfolding with_effort
cut_effort f e hf nonempty =
    let named : (e == "") ≡ false = ground (arith, eq_iff e "") in
    elim (text_cases e "auto") [
      | inl (default, e_auto) ↦
          let c = cut_missing f b'#' hf in
          rw (named, default, append-nil) (ap (λ p. p.0) c, rw c (sym e_auto))
      | inr (other, _) ↦
          let c = cut-append f hash_sign e b'#' hf refl in
          rw (named, other, append-nil) (ap (λ p. p.0) c, rw (c, named) refl)
    ]

-- what the constants of the vocabulary have in common
is_operation :
    (o : String)
    → contains valid_operations o ≡ true
    → (lacks o b':' ≡ true) × (valid_operation o ≡ true)
unfolding valid_operation
is_operation o =
    All-contains (λ s. (lacks s b':' ≡ true) × (valid_operation s ≡ true)) valid_operations o
      (
        (refl, refl),
        ((refl, refl), ((refl, refl), ((refl, refl), ((refl, refl), ((refl, refl), tt))))),
      )

abbrev features : List String
features = List.◌∷◌ "call" (List.◌∷◌ "stream" (List.◌∷◌ "tools" (List.◌∷◌ "image_input" List.[])))

is_feature :
    (f : String) → valid_capability_feature f ≡ true → (lacks f b'@' ≡ true) × (lacks f b'#' ≡ true)
unfolding valid_capability_feature
is_feature f h =
    All-contains (λ s. (lacks s b'@' ≡ true) × (lacks s b'#' ≡ true)) features f
      ((refl, refl), ((refl, refl), ((refl, refl), ((refl, refl), tt))))
      (ground (
        arith,
        eq_iff f "call",
        eq_iff f "stream",
        eq_iff f "tools",
        eq_iff f "image_input",
        eq_iff "call" f,
        eq_iff "stream" f,
        eq_iff "tools" f,
        eq_iff "image_input" f,
      ))

-- the efforts in their normal spelling
abbrev pub plain_efforts : List String
plain_efforts = List.◌∷◌ "auto" (
    List.◌∷◌ "none" (
      List.◌∷◌ "minimal" (
        List.◌∷◌ "low" (
          List.◌∷◌ "medium"
            (List.◌∷◌ "high" (List.◌∷◌ "max" (List.◌∷◌ "xhigh" (List.◌∷◌ "ultra" List.[]))))))))

is_effort :
    (e : String)
    → contains plain_efforts e ≡ true
    → ((e == "") ≡ false) × (lacks e b'@' ≡ true) × (valid_reasoning_effort e ≡ true)
unfolding valid_reasoning_effort
is_effort e =
    All-contains
      (λ s. ((s == "") ≡ false) × (lacks s b'@' ≡ true) × (valid_reasoning_effort s ≡ true))
      plain_efforts e
      (
        (refl, refl, refl),
        (
          (refl, refl, refl),
          (
            (refl, refl, refl),
            (
              (refl, refl, refl),
              (
                (refl, refl, refl),
                (
                  (refl, refl, refl),
                  ((refl, refl, refl), ((refl, refl, refl), ((refl, refl, refl), tt))),
                ),
              ),
            ),
          ),
        ),
      )

scope_of_key :
    (key o f e k : String)
    → lacks f b'@' ≡ true
    → lacks f b'#' ≡ true
    → lacks e b'@' ≡ true
    → (e == "") ≡ false
    → valid_capability_feature f ≡ true
    → valid_reasoning_effort e ≡ true
    → (k == "" || valid_public_credential_id k) ≡ true
    → key ≡ capability_feature_key o f e k
    → scope_of key o (append f (with_effort e (with_credential k)))
      ≡ record { operation = o; feature = f; effort = e; credential = k; valid = true }
unfolding scope_of
scope_of_key key o f e k f_at f_hash e_at named vf ve vk is_key =
    let scope = cut_scope f e k f_at e_at in
    let effort = cut_effort f e f_hash (λ p. ground (arith, eq_iff e "")) in
    rw (scope.0, scope.1, effort.0, effort.1, is_key) (rw (vf, ve, vk, eq_refl) refl)

-- Parsing the key of a fact gives its parts back: for each of the six operations, each known
-- feature, each effort in its plain spelling, and an empty or a valid public credential.
pub parse-feature_key :
    (operation feature effort credential : String)
    → contains valid_operations operation ≡ true
    → valid_capability_feature feature ≡ true
    → contains plain_efforts effort ≡ true
    → (credential == "" || valid_public_credential_id credential) ≡ true
    → parse_capability_feature_key (capability_feature_key operation feature effort credential)
      ≡ record {
        operation = operation;
        feature = feature;
        effort = effort;
        credential = credential;
        valid = true;
      }
unfolding parse_capability_feature_key capability_feature_key
parse-feature_key o f e k ho hf he hk =
    let op = is_operation o ho in
    let fe = is_feature f hf in
    let ef = is_effort e he in
    let c = cut-append o colon (append f (with_effort e (with_credential k))) b':' op.0 refl in
    rw (c, op.1)
      (scope_of_key (capability_feature_key o f e k) o f e k fe.0 fe.1 ef.1 ef.0 hf ef.2 hk refl)
