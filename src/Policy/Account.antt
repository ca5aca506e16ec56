-- ===== src/Policy/Account.antt =====
-- verifier/account/account.go: the account allowlist.
use Prim.Native.String.{◌++◌}
use zero_trust_service.Common.{
  ◌≡◌, ◌≢◌, ◌↔◌, String, none, some, List, [], ◌∷◌, ◌==◌, if◌then◌else◌, arith, eq_iff, Elem,
  contains, add_all, Elem-add_all_iff,
}
use zero_trust_service.Fault.{message, Result, ok, err}
use zero_trust_service.Types.{VerifyRequest, resolve_account_id}
use zero_trust_service.Verifier.{Context, Interface}

pub record Config : Type 0 where
  pub allowed_accounts : List String

module _ {W : Type 0} (quote : String → String) where
  -- `accountVerifier.Handle` with its set of accounts; `quote` is the verb `%q` of package fmt.
  handle : List String → Interface W
  handle allowed ctx req w =
      let account_id = resolve_account_id req in
      if account_id == ""
      then (some (message "require_account: account_id is missing in request"), w)
      else if contains account_id allowed
      then (none, w)
      else (
        some (
            message
              ("require_account: account " ++ (quote account_id ++ " is not in the allowlist"))),
        w,
      )

  new_from : List String → Result (Interface W)
  new_from [] = err (message "require_account: allowed_accounts list is empty")
  new_from (a ∷ rest) = ok (handle (add_all [] (a ∷ rest)))

  -- `New`.
  unfoldable pub new : Config → Result (Interface W)
  unfolding new_from handle
  new cfg = new_from cfg.allowed_accounts

  allowed_iff :
      (accounts : List String) (ctx : Context) (req : VerifyRequest) (w : W)
      → ((handle (add_all [] accounts) ctx req w).0 ≡ none)
        ↔ ((resolve_account_id req ≢ "") × Elem (resolve_account_id req) accounts)
  unfolding handle
  allowed_iff accounts ctx req w =
      let account_id = resolve_account_id req in
      ground (arith, eq_iff account_id "", Elem-add_all_iff account_id accounts)

  handle-keeps :
      (allowed : List String) (ctx : Context) (req : VerifyRequest) (w : W)
      → (handle allowed ctx req w).1 ≡ w
  unfolding handle
  handle-keeps allowed ctx req w = ground arith

  new_from-eq-ok :
      (accounts : List String) {v : Interface W}
      → new_from accounts ≡ ok v
      → v ≡ handle (add_all [] accounts)
  unfolding new_from
  new_from-eq-ok [] h = cc
  new_from-eq-ok (a ∷ rest) h = cc

  -- The verifier that was made from a configuration allows a request exactly when the request's
  -- account is not empty and is one of those listed, and it changes nothing outside.
  pub new-allows_iff :
      (cfg : Config) (v : Interface W) (ctx : Context) (req : VerifyRequest) (w : W)
      → new cfg ≡ ok v
      → (((v ctx req w).0 ≡ none)
          ↔ ((resolve_account_id req ≢ "") × Elem (resolve_account_id req) cfg.allowed_accounts))
        × ((v ctx req w).1 ≡ w)
  unfolding new
  new-allows_iff cfg v ctx req w h =
      let made = new_from-eq-ok cfg.allowed_accounts h in
      rw made (allowed_iff cfg.allowed_accounts ctx req w, handle-keeps _ ctx req w)
