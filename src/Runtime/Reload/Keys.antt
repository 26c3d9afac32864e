-- ===== src/Runtime/Reload/Keys.antt =====
-- A scheduler keeps its accounts under their IDs, and gives back what it took.
use lite2api.Common.{
  get_elem?-set_self, suc, zero, ◌==◌, if-both, ◌≡◌, refl, ap, ℕ, ◌+◌, ◌<◌, String, true, false,
  List, [], ◌∷◌, Option, length, arith, get_elem?, set,
}
use lite2api.Common.Int.{pos, ℤ, incr, decr-incr}
use lite2api.Common.Assoc.{Assoc, insert}
use lite2api.Config.Types.{Account, Route}
use lite2api.Runtime.State.{
  health_at, Identity, Heap, AccountRuntime, Scheduler, capacity_of, set_active, active_at,
}
use lite2api.Runtime.Health.{try_acquire, release}
use lite2api.Runtime.Capacity
use lite2api.Runtime.Targets.{Selection}
use lite2api.Runtime.Select.Fits.{Keyed}
use lite2api.Runtime.Reload.{
  or_else, health_at, new_account_runtime, add_account, add_accounts, new_scheduler_with_previous,
  release_selection,
}

Keyed-insert :
    (id : String) (a : AccountRuntime) (accounts : Assoc AccountRuntime)
    → a.config.id ≡ id
    → Keyed accounts
    → Keyed (insert id a accounts)
unfolding insert
Keyed-insert id a [] e k = (e, tt)
Keyed-insert id a ((j, b) ∷ rest) e (k, ks) =
    if-both Keyed (j == id) (e, ks) (k, Keyed-insert id a rest e ks)

module _ (getenv : String → String) (digest : Identity → String) where
  add_accounts-Keyed :
      (previous : Option Scheduler) (accounts : List Account) (heap : Heap)
      (built : Assoc AccountRuntime)
      → Keyed built
      → Keyed (add_accounts getenv digest previous accounts (heap, built)).1
  unfolding add_accounts add_account new_account_runtime
  add_accounts-Keyed previous [] heap built k = k
  add_accounts-Keyed previous (account ∷ rest) heap built k =
      add_accounts-Keyed previous rest _ _ (Keyed-insert account.id _ built refl k)

  -- Every scheduler made for a configuration, on its own or as a successor, keeps each account
  -- under its ID.
  pub new_scheduler_with_previous-Keyed :
      (accounts : List Account) (routes : Assoc Route) (previous : Option Scheduler) (heap : Heap)
      → Keyed (new_scheduler_with_previous getenv digest accounts routes previous heap).1.accounts
  unfolding new_scheduler_with_previous
  new_scheduler_with_previous-Keyed accounts routes previous heap =
      add_accounts-Keyed previous accounts heap [] tt

set-restores :
    (xs : List ℤ) (i : ℕ) (v w d : ℤ)
    → i < length xs
    → w ≡ or_else (get_elem? xs i) d
    → set (set xs i v) i w ≡ xs
set-restores [] i v w d h e = elim h [ ]
set-restores (x ∷ xs) zero v w d h e = rw e refl
set-restores (x ∷ xs) (suc i) v w d h e =
    ap (λ ys. x ∷ ys) (set-restores xs i v w d (omega arith) e)

acquire-granted :
    (limit n : ℤ) → (Capacity.acquire limit n).1 ≡ true → (Capacity.acquire limit n).0 ≡ incr n
unfolding Capacity.acquire
acquire-granted limit n h = ground arith

release-try_acquire :
    (a : AccountRuntime) (heap : Heap)
    → capacity_of heap a < length heap.capacities
    → (try_acquire a heap).1 ≡ true
    → (release a (try_acquire a heap).0).capacities ≡ heap.capacities
unfolding try_acquire release set_active active_at health_at Capacity.release
release-try_acquire a heap allocated granted =
    let c = capacity_of heap a in
    let n = active_at heap c in
    set-restores heap.capacities c _ _ (pos 0) allocated (
      rw
        (get_elem?-set_self heap.capacities c (Capacity.acquire a.config.concurrency n).0 allocated)
        (rw (acquire-granted a.config.concurrency n granted) (decr-incr n)))

-- Releasing a selection whose lease was just taken restores every counter, and a second release
-- changes nothing more.
pub release_selection-try_acquire :
    (sel : Selection) (heap : Heap)
    → sel.released ≡ false
    → capacity_of heap sel.account < length heap.capacities
    → (try_acquire sel.account heap).1 ≡ true
    → let taken = (try_acquire sel.account heap).0 in
      let once = release_selection sel taken in
      let twice = release_selection once.1 once.0 in
      (once.0 ≡ record heap { broadcasts = heap.broadcasts + 1 }) × (twice.0 ≡ once.0)
unfolding release_selection try_acquire release set_active
release_selection-try_acquire sel heap fresh allocated granted = rw fresh (
  ap (λ (cs : List ℤ). record heap { capacities = cs; broadcasts = heap.broadcasts + 1 })
      (release-try_acquire sel.account heap allocated granted),
  refl,
)
