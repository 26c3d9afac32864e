-- ===== src/Completion/Calls/Bounds.antt =====
-- What the calls of a stream hold is covered by the counters, which are bounded.
use Prim.Native.String.{len, ◌++◌ as append}
use text.Mathlib.TextPositions.{len-append}
use lite2api.Common.{
  not-leb→lt, ◌<◌, ℕ, ◌+◌, ◌≤◌, ◌≡◌, refl, arith, String, Bool, true, false, [], ◌∷◌, Option, none,
  some, length, inl, inr, Bool-cases, if-both, ltb, leb, ◌||◌, if◌then◌else◌,
}
use lite2api.Common.Int.{leb_ℤ, ltb_ℤ, ℤ, pos, eqb_ℤ}
use lite2api.Completion.Outcome.{Passes-inl, Passes-inr, Passes}
use lite2api.Completion.Contract.{max_completion_tools, max_completion_arguments}
use lite2api.Completion.Calls.{
  Table, find, put, CompletionStreamCall, new_call, Budget, Calls, stream_call, append_arguments,
}

eqb_ℤ-refl : (k : ℤ) → eqb_ℤ k k ≡ true
eqb_ℤ-refl k = ground arith

module _ {ℓ} {V : Type ℓ} where
  abbrev pub total : (V → ℕ) → Table V → ℕ
  total weight [] = 0
  total weight ((at, v) ∷ rest) = weight v + total weight rest

  -- what the table holds at the key
  abbrev pub held : (V → ℕ) → Option V → ℕ
  held weight none = 0
  held weight (some v) = weight v

  pub total-put :
      (weight : V → ℕ) (key : ℤ) (v : V) (t : Table V)
      → total weight (put key v t) + held weight (find key t) ≡ total weight t + weight v
  unfolding put find
  total-put weight key v [] = omega arith
  total-put weight key v ((at, old) ∷ rest) = elim (Bool-cases (eqb_ℤ at key)) [
    | inl e ↦ rw e (omega arith)
    | inr e ↦ rw e (omega (arith, total-put weight key v rest))
  ]

  pub held-le-total :
      (weight : V → ℕ) (key : ℤ) (t : Table V) → held weight (find key t) ≤ total weight t
  unfolding find
  held-le-total weight key [] = omega arith
  held-le-total weight key ((at, old) ∷ rest) = elim (Bool-cases (eqb_ℤ at key)) [
    | inl e ↦ rw e (omega arith)
    | inr e ↦ rw e (omega (arith, held-le-total weight key rest))
  ]

  pub total-length : (t : Table V) → total (λ v. 1) t ≡ length t
  total-length [] = refl
  total-length (x ∷ rest) = omega (arith, total-length rest)

  pub find-put_self : (key : ℤ) (v : V) (t : Table V) → find key (put key v t) ≡ some v
  unfolding put find
  find-put_self key v [] = rw (eqb_ℤ-refl key) refl
  find-put_self key v ((at, old) ∷ rest) = elim (Bool-cases (eqb_ℤ at key)) [
    | inl e ↦ rw (e, eqb_ℤ-refl key) refl
    | inr e ↦ rw e (rw (e, find-put_self key v rest) refl)
  ]

abbrev pub bytes_of : Calls → ℕ
bytes_of = total (λ c. len c.args)

-- The counters cover the calls of the group and what else is held, and stay in their limits.
pub record Covers (bytes calls : ℕ) (b : Budget) (group : Calls) : Type 0 where
  pub holds_bytes : bytes + bytes_of group ≤ b.argument_bytes
  pub holds_calls : calls + length group ≤ b.call_count
  pub bytes_bound : b.argument_bytes ≤ max_completion_arguments
  pub calls_bound : b.call_count ≤ max_completion_tools

-- ... and the call in hand is in the group.
abbrev pub CoversCall : ℕ → ℕ → ℤ → Budget × Calls × CompletionStreamCall → Type 0
CoversCall bytes calls index (b, group, call) =
    Covers bytes calls b group × (find index group ≡ some call)

fresh-Covers :
    (bytes calls : ℕ) (b : Budget) (group : Calls) (index : ℤ)
    → Covers bytes calls b group
    → find index group ≡ none
    → b.call_count < max_completion_tools
    → Covers bytes calls (record b { call_count = b.call_count + 1 }) (put index new_call group)
fresh-Covers bytes calls b group index h e room =
    let sum = total-put (λ c. len c.args) index new_call group in
    let count = total-put (λ c. 1) index new_call group in
    let had : held (λ c. len c.args) (find index group) ≡ 0 = rw e refl in
    let one : held (λ c. 1) (find index group) ≡ 0 = rw e refl in
    record {
      holds_bytes = omega (arith, h.holds_bytes, sum, had);
      holds_calls = omega (
        arith,
        h.holds_calls,
        count,
        one,
        total-length group,
        total-length (put index new_call group),
      );
      bytes_bound = h.bytes_bound;
      calls_bound = omega (arith, h.calls_bound, room);
    }

pub stream_call-Covers :
    (bytes calls : ℕ) (b : Budget) (group : Calls) (index : ℤ)
    → Covers bytes calls b group
    → Passes (CoversCall bytes calls index) (stream_call b group index)
unfolding stream_call
stream_call-Covers bytes calls b group index h =
    if-both (Passes (CoversCall bytes calls index))
      (ltb_ℤ index (pos 0) || leb_ℤ (pos max_completion_tools) index)
      {x = inr "upstream tool index exceeds the supported range"} {y = _} (Passes-inr _ _)
      (go (find index group) refl)
  where
    go :
        (o : Option CompletionStreamCall)
        → find index group ≡ o
        → Passes (CoversCall bytes calls index) (elim o [
          | none ↦
              if leb max_completion_tools b.call_count
              then inr "upstream returned too many tool calls"
              else inl
                  (record b { call_count = b.call_count + 1 }, put index new_call group, new_call)
          | some call ↦ inl (b, group, call)
        ])
    go none e = elim (Bool-cases (leb max_completion_tools b.call_count)) [
      | inl full ↦ rw full (Passes-inr _ _)
      | inr room ↦ rw room (
          Passes-inl _ _ (
            fresh-Covers bytes calls b group index h e (not-leb→lt _ _ room),
            find-put_self index new_call group,
          ))
    ]
    go (some call) e = Passes-inl _ _ (h, e)

-- Appending keeps the difference of the call's bytes and the counter.
abbrev pub Appended : Budget → CompletionStreamCall → Budget × CompletionStreamCall → Type 0
Appended b call (b2, call2) =
    (len call2.args + b.argument_bytes ≤ len call.args + b2.argument_bytes)
    × (b.argument_bytes ≤ b2.argument_bytes)
    × (b2.argument_bytes ≤ max_completion_arguments)
    × (b2.call_count ≡ b.call_count)

appended :
    (deltas : Bool) (args part : String) (n : ℕ)
    → len (append (if deltas then args else "") part) + n ≤ len args + (n + len part)
appended true args part n = omega (arith, len-append args part)
appended false args part n = omega (arith, len-append "" part)

pub append_arguments-Appended :
    (b : Budget) (call : CompletionStreamCall) (part : String)
    → Passes (Appended b call) (append_arguments b call part)
unfolding append_arguments
append_arguments-Appended b call part = elim (Bool-cases (call.done || call.arguments_done)) [
  | inl e ↦ rw e (Passes-inr _ _)
  | inr e ↦ rw e (elim (Bool-cases (ltb max_completion_arguments (b.argument_bytes + len part))) [
    | inl f ↦ rw f (Passes-inr _ _)
    | inr f ↦ rw f (
        Passes-inl _ _
          (appended call.deltas call.args part b.argument_bytes, omega arith, ground arith, refl))
  ])
]

pub put-Covers :
    (bytes calls : ℕ) (b b2 : Budget) (group : Calls) (index : ℤ)
    (call call2 : CompletionStreamCall)
    → CoversCall bytes calls index (b, group, call)
    → Appended b call (b2, call2)
    → Covers bytes calls b2 (put index call2 group)
put-Covers bytes calls b b2 group index call call2 h a =
    let sum = total-put (λ c. len c.args) index call2 group in
    let count = total-put (λ c. 1) index call2 group in
    let had : held (λ c. len c.args) (find index group) ≡ len call.args = rw (h.1) refl in
    let one : held (λ c. 1) (find index group) ≡ 1 = rw (h.1) refl in
    record {
      holds_bytes = omega (arith, h.0.holds_bytes, a.0, a.1, sum, had);
      holds_calls = omega (
        arith,
        h.0.holds_calls,
        a.3,
        count,
        one,
        total-length group,
        total-length (put index call2 group),
      );
      bytes_bound = a.2;
      calls_bound = omega (arith, h.0.calls_bound, a.3);
    }

-- Where there is no call yet, a new one is put into the group.
pub stream_call-find :
    (b : Budget) (group : Calls) (index : ℤ)
    → find index group ≡ none
    → Passes
        (λ (o : Budget × Calls × CompletionStreamCall).
          (o.1 ≡ put index new_call group) × (o.2 ≡ new_call))
        (stream_call b group index)
unfolding stream_call
stream_call-find b group index e =
    let new : Budget × Calls × CompletionStreamCall =
      (record b { call_count = b.call_count + 1 }, put index new_call group, new_call) in
    let P : Budget × Calls × CompletionStreamCall → Type 0 =
      λ o. (o.1 ≡ put index new_call group) × (o.2 ≡ new_call) in
    rw e (
      if-both (Passes P) (ltb_ℤ index (pos 0) || leb_ℤ (pos max_completion_tools) index)
        {x = inr "upstream tool index exceeds the supported range"} {y = _} (Passes-inr P _)
        (if-both (Passes P) (leb max_completion_tools b.call_count)
          {x = inr "upstream returned too many tool calls"} {y = inl new} (Passes-inr P _)
          (Passes-inl P new (refl, refl))))

-- Appending does not end the call.
pub append_arguments-done :
    (b : Budget) (call : CompletionStreamCall) (part : String)
    → call.done ≡ false
    → Passes
        (λ (o : Budget × CompletionStreamCall). o.1.done ≡ false)
        (append_arguments b call part)
unfolding append_arguments
append_arguments-done b call part e =
    let P : Budget × CompletionStreamCall → Type 0 = λ o. o.1.done ≡ false in
    if-both (Passes P) (call.done || call.arguments_done) {x = inr _} {y = _} (Passes-inr P _) (
      if-both (Passes P) (ltb max_completion_arguments (b.argument_bytes + len part)) {x = inr _}
        {y = inl _} (Passes-inr P _) (Passes-inl P _ e))
