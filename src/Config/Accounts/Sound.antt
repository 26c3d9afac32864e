-- ===== src/Config/Accounts/Sound.antt =====
-- Accounts that validate have distinct ids.
use lite2api.Common.{
  ◌≡◌, ◌≢◌, arith, String, Bool, List, [], ◌∷◌, none, eq_iff, All, map, first_error-none,
}
use lite2api.Common.Text.{trim_space}
use lite2api.Config.Types.{Account}
use lite2api.Config.Server.{Host}
use lite2api.Config.Checks.{first_of-none, none-then, trimmed, Apart}
use lite2api.Config.Accounts.{account_parts, account_check, accounts_check, account_checks}

pub accounts_check-Apart :
    (host : Host) (private_ok : Bool) (seen : List String) (accounts : List Account)
    → accounts_check host private_ok seen accounts ≡ none
    → Apart seen (map (λ (a : Account). a.id) accounts)
      × All (λ (a : Account). (a.id ≢ "") × (trim_space a.id ≡ a.id)) accounts
unfolding accounts_check account_check account_parts account_checks
accounts_check-Apart host private_ok seen [] e = (tt, tt)
accounts_check-Apart host private_ok seen (a ∷ rest) e =
    let split =
      none-then (account_check host private_ok seen a)
        (accounts_check host private_ok (a.id ∷ seen) rest) e in
    let first =
      first_error-none (account_checks host seen a)
        (first_of-none (account_parts host private_ok seen a) split.0).0 in
    let later = accounts_check-Apart host private_ok (a.id ∷ seen) rest split.1 in
    (
      (first.1.1.1.1.1.0, later.0),
      (
        (ground (arith, eq_iff a.id "", first.0), trimmed a.id (ground (arith, first.1.0))),
        later.1,
      ),
    )
