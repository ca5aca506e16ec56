-- ===== src/Service/Messages.antt =====
-- examples/zts/ordering/verifier.go: the texts of a denial, from the violations that block a step.
use Prim.Native.String.{◌++◌}
use zero_trust_service.Common.{
  String, List, [], ◌∷◌, ◌&&◌, not, ◌==◌, if◌then◌else◌, map, length, leb, contains,
}
use zero_trust_service.Common.Texts.{split, join_texts, itoa}
use zero_trust_service.Pipeline.Violations.{
  Violation, AncestorDidNotRunViolation, RuntimeFanoutViolation, fanout_ancestor, is_ignored,
}

-- `fqnKeywords`.
abbrev pub fqn_keywords : List String
fqn_keywords =
    "pipeline" ∷ "stages" ∷ "spec" ∷ "execution" ∷ "steps" ∷ "rollbackSteps" ∷ "parallel" ∷ []

named_segments : List String → List String
named_segments [] = []
named_segments (seg ∷ rest) =
    let parts = named_segments rest in
    if not (seg == "") && not (contains seg fqn_keywords) then seg ∷ parts else parts

parts_or_raw : String → List String → String
parts_or_raw fqn [] = fqn
parts_or_raw fqn (part ∷ parts) = join_texts " / " (part ∷ parts)

-- `humanFQN`.
unfoldable pub human_fqn : String → String
unfolding split named_segments parts_or_raw join_texts
human_fqn fqn = parts_or_raw fqn (named_segments (split b'.' fqn))

-- `humanFQNs`.
unfoldable pub human_fqns : List String → String
unfolding human_fqn join_texts
human_fqns fqns = join_texts ", " (map human_fqn fqns)

waiting_message : AncestorDidNotRunViolation → String
waiting_message m =
    if not (m.ancestor_fqn == "") && leb 2 (length m.ancestors)
    then "waiting on "
      ++ human_fqn m.ancestor_fqn
      ++ ": "
      ++ itoa (length m.ancestors)
      ++ " instances outstanding ("
      ++ human_fqns m.ancestors
      ++ ")"
    else "waiting on: " ++ human_fqns m.ancestors

fanout_message : RuntimeFanoutViolation → String
fanout_message r =
    (if r.role == fanout_ancestor then "ancestor runtime fan-out" else "runtime fan-out")
    ++ " cannot be gated ("
    ++ r.status
    ++ "): "
    ++ human_fqn r.fqn

blocking_message : Violation → String
blocking_message (Violation.ancestor m) = waiting_message m
blocking_message (Violation.condition v) = v.description
blocking_message (Violation.runtime_fanout r) = fanout_message r
blocking_message (Violation.condition_unknown v) = v.description
blocking_message (Violation.run_state_unknown v) = v.description
blocking_message (Violation.pipeline_rollback v) = v.description

-- `blockingMessages`.
unfoldable pub blocking_messages : List Violation → List String
unfolding blocking_message waiting_message fanout_message
blocking_messages vs = map blocking_message vs

-- The violations that no policy let through.
unfoldable pub blocking : List Violation → List Violation
unfolding is_ignored
blocking [] = []
blocking (v ∷ vs) = let rest = blocking vs in if not (is_ignored v) then v ∷ rest else rest
