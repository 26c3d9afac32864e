-- ===== src/Stats/Ring/Reads.antt =====
-- A ring holds the last values put into it, and gives them back newest first.
use mathlib.Core.Path.{subst}
use native.Mathlib.Nat.{mod-eq_of_lt, mod-eq-sub-mod}
use native.Mathlib.Decide.{dec_lt}
use lite2api.Common.{
  >>=-some, length-set, ap, get_elem?-set_ne, ltb→lt, get_elem?-set_self, false, length-append,
  true, length-take-le, ◌≢◌, ℕ, zero, suc, ◌+◌, ◌-◌, ◌%◌, ◌<◌, ◌≤◌, ◌≡◌, refl, sym, ◌∙◌, arith,
  List, [], ◌∷◌, ◌++◌, some, length, get_elem?, set, ltb, take, if◌then◌else◌,
}
use lite2api.Stats.Ring.{ring_put, read_at}

-- where the i-th newest value is, in a ring of `n` places
abbrev slot : ℕ → ℕ → ℕ → ℕ
slot n next i = if ltb i next then next - 1 - i else next + n - 1 - i

mod-slot : (n next i : ℕ) → next ≤ n → i < n → (next + n - 1 - i) % n ≡ slot n next i
mod-slot n next i h k = elim (dec_lt i next) [
  | yes p ↦ ground (
    arith,
    mod-eq-sub-mod {n = next + n - 1 - i} {m = n} (omega arith),
    mod-eq_of_lt {n = next + n - 1 - i - n} {m = n} (omega arith),
  )
  | no p ↦ ground (arith, mod-eq_of_lt {n = next + n - 1 - i} {m = n} (omega arith))
]

-- the next place
abbrev turn : ℕ → ℕ → ℕ
turn n next = if ltb (suc next) n then suc next else 0

mod-turn : (n next : ℕ) → next < n → suc next % n ≡ turn n next
mod-turn n next h = elim (dec_lt (suc next) n) [
  | yes p ↦ ground (arith, mod-eq_of_lt p)
  | no p ↦ ground (
    arith,
    mod-eq-sub-mod {n = suc next} {m = n} (omega arith),
    mod-eq_of_lt {n = suc next - n} {m = n} (omega arith),
  )
]

slot-turn_zero : (n next : ℕ) → next < n → slot n (turn n next) 0 ≡ next
slot-turn_zero n next h = ground arith

slot-turn-suc : (n next i : ℕ) → next < n → suc i < n → slot n (turn n next) (suc i) ≡ slot n next i
slot-turn-suc n next i h k = ground arith

slot-other : (n next i : ℕ) → next < n → suc i < n → slot n next i ≢ next
slot-other n next i h k = ground arith

slot-lt :
    (n len next i : ℕ) → next < n → len ≤ n → (len < n → next ≡ len) → i < len → slot n next i < len
slot-lt n len next i h b f k = ground arith

slot-full :
    (n next len i : ℕ)
    → next < n
    → len ≤ n
    → (len < n → next ≡ len)
    → i < len
    → slot len next i ≡ slot n next i
slot-full n next len i h b f k = ground arith

module _ {ℓ} {A : Type ℓ} where
  get_elem?-append_left :
      (xs ys : List A) (i : ℕ) → i < length xs → get_elem? (xs ++ ys) i ≡ get_elem? xs i
  get_elem?-append_left [] ys i h = absurd (omega arith)
  get_elem?-append_left (x ∷ xs) ys zero h = refl
  get_elem?-append_left (x ∷ xs) ys (suc i) h = get_elem?-append_left xs ys i (omega arith)

  get_elem?-snoc : (xs : List A) (x : A) → get_elem? (xs ++ x ∷ []) (length xs) ≡ some x
  get_elem?-snoc [] x = refl
  get_elem?-snoc (y ∷ xs) x = get_elem?-snoc xs x

  get_elem?-take : (n : ℕ) (xs : List A) (i : ℕ) → i < n → get_elem? (take n xs) i ≡ get_elem? xs i
  get_elem?-take zero xs i h = absurd (omega arith)
  get_elem?-take (suc n) [] i h = refl
  get_elem?-take (suc n) (x ∷ xs) zero h = refl
  get_elem?-take (suc n) (x ∷ xs) (suc i) h = get_elem?-take n xs i (omega arith)

  -- The ring holds `h`, the newest value first.
  pub record Holds (limit : ℕ) (items : List A) (next : ℕ) (h : List A) : Type ℓ where
    pub size : length items ≡ length h
    pub bound : length h ≤ limit
    pub place : next < limit
    pub filling : (length h < limit) → next ≡ length h
    pub entries : (i : ℕ) → i < length h → get_elem? items (slot limit next i) ≡ get_elem? h i

  length-take :
      (n : ℕ) (xs : List A) → length (take n xs) ≡ (if ltb n (length xs) then n else length xs)
  length-take zero xs = ground arith
  length-take (suc n) [] = ground arith
  length-take (suc n) (x ∷ xs) = ground (arith, length-take n xs)

  -- what a write does to the ring's places
  record Written (items : List A) (next : ℕ) (x : A) (items' : List A) : Type ℓ where
    here : get_elem? items' next ≡ some x
    others : (j : ℕ) → j < length items → j ≢ next → get_elem? items' j ≡ get_elem? items j

  Written-entries :
      (limit : ℕ) (x : A) (items items' h : List A) (next : ℕ)
      → Holds limit items next h
      → Written items next x items'
      → (i : ℕ) → i < length (take limit (x ∷ h))
      → get_elem? items' (slot limit (turn limit next) i) ≡ get_elem? (x ∷ h) i
  Written-entries limit x items items' h next r w zero p =
      rw (slot-turn_zero limit next r.place) (w.here)
  Written-entries limit x items items' h next r w (suc i) p =
      let within : suc i < limit = ground (arith, length-take limit (x ∷ h)) in
      let old : i < length h = ground (arith, length-take limit (x ∷ h)) in
      let inside : slot limit next i < length items =
        rw (r.size) (slot-lt limit (length h) next i r.place r.bound r.filling old) in
      rw (slot-turn-suc limit next i r.place within) (
        w.others (slot limit next i) inside (slot-other limit next i r.place within)
        ∙ r.entries i old)

  Written-Holds :
      (limit : ℕ) (x : A) (items items' h : List A) (next : ℕ)
      → Holds limit items next h
      → Written items next x items'
      → length items' ≡ length (take limit (x ∷ h))
      → Holds limit items' (turn limit next) (take limit (x ∷ h))
  Written-Holds limit x items items' h next r w e = record {
    size = e;
    bound = length-take-le limit (x ∷ h);
    place = ground (arith, r.place);
    filling = λ p. ground (arith, r.filling, r.place, r.bound, length-take limit (x ∷ h));
    entries = λ i p.
        Written-entries limit x items items' h next r w i p
        ∙ sym (get_elem?-take limit (x ∷ h) i (ground (arith, length-take limit (x ∷ h))));
  }

  pub put-Holds :
      (limit : ℕ) (x : A) (items h : List A) (next : ℕ)
      → Holds limit items next h
      → (items' : List A) × (next' : ℕ) × (ring_put limit x items next ≡ some (items', next'))
        × Holds limit items' next' (take limit (x ∷ h))
  unfolding ring_put
  put-Holds limit x items h next r = elim (dec_lt (length items) limit) [
    | yes p ↦
        let filled : length items ≡ next = omega (arith, r.size, r.filling) in
        let room : ltb (length items) limit ≡ true = ground arith in
        let wrap : suc (length items) % limit ≡ turn limit next =
          rw filled (mod-turn limit next r.place) in
        (
          items ++ x ∷ [],
          turn limit next,
          rw (room, wrap) refl,
          Written-Holds limit x items (items ++ x ∷ []) h next r
              (record {
                here = rw (← filled) (get_elem?-snoc items x);
                others = λ j q ne. get_elem?-append_left items (x ∷ []) j q;
              })
              (ground (arith, length-append items (x ∷ []), length-take limit (x ∷ h), r.size)),
        )
    | no p ↦
        let full : ltb (length items) limit ≡ false = ground arith in
        let within : ltb next (length items) ≡ true = ground (arith, r.place) in
        (
          set items next x,
          turn limit next,
          rw (full, within, mod-turn limit next r.place) refl,
          Written-Holds limit x items (set items next x) h next r
              (record {
                here = get_elem?-set_self items next x (ltb→lt next (length items) within);
                others = λ j q ne. get_elem?-set_ne items x (λ e. ne (sym e));
              })
              (ground (arith, length-set items next x, length-take limit (x ∷ h), r.size, r.bound)),
        )
  ]

  -- reading back newest first, from the i-th on
  read_at-drop :
      (items : List A) (index : ℕ → ℕ) (i : ℕ) (h : List A)
      → ((j : ℕ) → j < length h → get_elem? items (index (i + j)) ≡ get_elem? h j)
      → read_at items index i (length h) ≡ some h
  unfolding read_at
  read_at-drop items index i [] e = refl
  read_at-drop items index i (x ∷ h) e =
      let first : get_elem? items (index i) ≡ some x =
        subst (λ k. get_elem? items (index k) ≡ some x) (omega arith) (e 0 (omega arith)) in
      let rest = read_at-drop items index (suc i) h (λ j p.
        subst (λ k. get_elem? items (index k) ≡ get_elem? h j) (omega arith)
          (e (suc j) (omega arith))) in
      >>=-some _ first ∙ >>=-some _ rest

  Holds-entry :
      (limit : ℕ) (items h : List A) (next : ℕ)
      → Holds limit items next h
      → (j : ℕ) → j < length h
      → get_elem? items ((next + length h - 1 - j) % length h) ≡ get_elem? h j
  Holds-entry limit items h next r j p =
      ap (get_elem? items) (
        mod-slot (length h) next j (ground (arith, r.filling, r.place, r.bound)) p
        ∙ slot-full limit next (length h) j r.place r.bound r.filling p)
      ∙ r.entries j p

  -- The reading loop of Snapshot gives the values newest first.
  pub read_at-Holds :
      (limit : ℕ) (items h : List A) (next : ℕ)
      → Holds limit items next h
      → read_at items (λ i. (next + length items - 1 - i) % length items) 0 (length items) ≡ some h
  read_at-Holds limit items h next r = rw (r.size) (
      read_at-drop items (λ i. (next + length h - 1 - i) % length h) 0 h
        (λ j p.
          subst (λ k. get_elem? items ((next + length h - 1 - k) % length h) ≡ get_elem? h j)
            (omega arith) (Holds-entry limit items h next r j p)))

  -- A ring that nothing was put into.
  pub empty-Holds : (limit : ℕ) → 0 < limit → Holds limit [] 0 []
  empty-Holds limit h = record {
    size = refl;
    bound = omega arith;
    place = h;
    filling = λ p. refl;
    entries = λ i p. absurd (omega arith);
  }
