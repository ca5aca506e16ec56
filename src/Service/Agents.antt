-- ===== src/Service/Agents.antt =====
-- examples/verifiers/gitops_agent_allowlist.go: the verifier that lets through the listed GitOps agents
-- and whatever no agent runs.
use Prim.Native.String.{◌++◌}
use zero_trust_service.Common.{
  ◌≡◌, ◌≢◌, ◌↔◌, String, none, some, List, [], ◌∷◌, ◌==◌, if◌then◌else◌, arith, eq_iff, Elem,
  contains, add_all, Elem-add_all_iff,
}
use zero_trust_service.Fault.{message, Result, ok, err}
use zero_trust_service.Types.{VerifyRequest, request_git_ops_agent_id}
use zero_trust_service.Verifier.{Context, Interface}

pub record GitopsAgentAllowlistConfig : Type 0 where
  pub allowed_agents : List String

module _ {W : Type 0} (quote : String → String) where
  -- `Handle` with its set of agents; `quote` is the verb `%q` of package fmt.
  handle : List String → Interface W
  handle allowed ctx req w =
      let agent = request_git_ops_agent_id req in
      if agent == "" then (none, w) else if contains agent allowed then (none, w) else (
        some (
            message
              ("gitops_agent_allowlist: agent " ++ (quote agent ++ " is not in the allowlist"))),
        w,
      )

  new_from : List String → Result (Interface W)
  new_from [] = err (message "gitops_agent_allowlist: allowed_agents must not be empty")
  new_from (a ∷ rest) = ok (handle (add_all [] (a ∷ rest)))

  -- `NewGitopsAgentAllowlist`.
  unfoldable pub new_gitops_agent_allowlist : GitopsAgentAllowlistConfig → Result (Interface W)
  unfolding new_from handle
  new_gitops_agent_allowlist cfg = new_from cfg.allowed_agents

  passes_iff :
      (allowed : List String) (ctx : Context) (req : VerifyRequest) (w : W)
      → ((handle (add_all [] allowed) ctx req w).0 ≡ none)
        ↔ ((request_git_ops_agent_id req ≢ "") → Elem (request_git_ops_agent_id req) allowed)
  unfolding handle
  passes_iff allowed ctx req w =
      let agent = request_git_ops_agent_id req in
      ground (arith, eq_iff agent "", Elem-add_all_iff agent allowed)

  new_from-eq-ok :
      (allowed : List String) {v : Interface W}
      → new_from allowed ≡ ok v
      → v ≡ handle (add_all [] allowed)
  unfolding new_from
  new_from-eq-ok [] h = cc
  new_from-eq-ok (a ∷ rest) h = cc

  -- The verifier that was made from a configuration lets a request pass exactly when the agent that it
  -- names, if any, is one of those listed.
  pub new_gitops_agent_allowlist-passes_iff :
      (cfg : GitopsAgentAllowlistConfig) (v : Interface W) (ctx : Context) (req : VerifyRequest)
      (w : W)
      → new_gitops_agent_allowlist cfg ≡ ok v
      → ((v ctx req w).0 ≡ none) ↔ (
          (request_git_ops_agent_id req ≢ "")
          → Elem (request_git_ops_agent_id req) cfg.allowed_agents)
  unfolding new_gitops_agent_allowlist
  new_gitops_agent_allowlist-passes_iff cfg v ctx req w h =
      let made = new_from-eq-ok cfg.allowed_agents h in
      rw made (passes_iff cfg.allowed_agents ctx req w)
