-- ===== src/Policy/Denylist.antt =====
-- verifier/taskdenylist/denylist.go: the global denylist of task types.
use Prim.Native.String.{◌++◌}
use zero_trust_service.Common.{
  ◌≡◌, ◌≢◌, ◌↔◌, String, none, some, List, [], ◌∷◌, ◌==◌, if◌then◌else◌, arith, eq_iff, Elem,
  contains, add_all, Elem-add_all_iff,
}
use zero_trust_service.Fault.{message, Result, ok, err}
use zero_trust_service.Types.{VerifyRequest, resolve_task_type}
use zero_trust_service.Verifier.{Context, Interface}

pub record Config : Type 0 where
  pub denied_types : List String

module _ {W : Type 0} (quote : String → String) where
  -- `denylist.Handle` with its set of task types; `quote` is the verb `%q` of package fmt.
  handle : List String → Interface W
  handle denied ctx req w =
      let task_type = resolve_task_type req in
      if task_type == ""
      then (none, w)
      else if contains task_type denied
      then (
        some (message ("task_denylist: task type " ++ (quote task_type ++ " is denied by policy"))),
        w,
      )
      else (none, w)

  new_from : List String → Result (Interface W)
  new_from [] = err (message "task_denylist: denied_types must not be empty")
  new_from (t ∷ rest) = ok (handle (add_all [] (t ∷ rest)))

  -- `New`.
  unfoldable pub new : Config → Result (Interface W)
  unfolding new_from handle
  new cfg = new_from cfg.denied_types

  denied_iff :
      (denied : List String) (ctx : Context) (req : VerifyRequest) (w : W)
      → ((handle (add_all [] denied) ctx req w).0 ≢ none)
        ↔ ((resolve_task_type req ≢ "") × Elem (resolve_task_type req) denied)
  unfolding handle
  denied_iff denied ctx req w =
      let task_type = resolve_task_type req in
      ground (arith, eq_iff task_type "", Elem-add_all_iff task_type denied)

  handle-keeps :
      (denied : List String) (ctx : Context) (req : VerifyRequest) (w : W)
      → (handle denied ctx req w).1 ≡ w
  unfolding handle
  handle-keeps denied ctx req w = ground arith

  new_from-eq-ok :
      (denied : List String) {v : Interface W}
      → new_from denied ≡ ok v
      → v ≡ handle (add_all [] denied)
  unfolding new_from
  new_from-eq-ok [] h = cc
  new_from-eq-ok (t ∷ rest) h = cc

  -- The verifier that was made from a configuration denies a request exactly when the request has a
  -- task type, not empty, that is one of those listed, and it changes nothing outside.
  pub new-denies_iff :
      (cfg : Config) (v : Interface W) (ctx : Context) (req : VerifyRequest) (w : W)
      → new cfg ≡ ok v
      → (((v ctx req w).0 ≢ none)
          ↔ ((resolve_task_type req ≢ "") × Elem (resolve_task_type req) cfg.denied_types))
        × ((v ctx req w).1 ≡ w)
  unfolding new
  new-denies_iff cfg v ctx req w h =
      let made = new_from-eq-ok cfg.denied_types h in
      rw made (denied_iff cfg.denied_types ctx req w, handle-keeps _ ctx req w)
