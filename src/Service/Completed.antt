-- ===== src/Service/Completed.antt =====
-- examples/zts/ordering/ranstore.go: what a mark adds to the completed steps.
use zero_trust_service.Common.{
  ◌≡◌, ap₂, ◌∙◌, String, Bool, [], ◌∷◌, ◌++◌, ◌||◌, ◌&&◌, ◌==◌, if◌then◌else◌, lookup, contains,
  arith, eq_iff, read_after_write, add-contains,
}
use zero_trust_service.Service.Store.{Sets, Store, set_or_new, add, mark_ran, ran}

holds : Sets → String → String → Bool
holds m plan key = contains key (set_or_new (lookup plan m))

holds-add :
    (m : Sets) (plan other key k : String)
    → holds (add m plan key) other k ≡ (holds m other k || plan == other && key == k)
unfolding holds add
holds-add m plan other key k =
    let set = set_or_new (lookup plan m) in
    ground (
      arith,
      eq_iff plan other,
      read_after_write plan other (if contains key set then set else set ++ key ∷ []) m,
      add-contains k key set,
    )

regroup : (a b p x y : Bool) → ((a || p && x) || (b || p && y)) ≡ ((a || b) || p && (x || y))
regroup a b p x y = ground arith

-- After a step was marked, a name counts as completed in an execution exactly if it did before, or the
-- execution is the one marked and the name is the instance or the logical name of the step.
pub ran-mark_ran :
    (s : Store) (plan instance_fqn logical_fqn other fqn : String)
    → ran (mark_ran s plan instance_fqn logical_fqn) other fqn
      ≡ (ran s other fqn || plan == other && (instance_fqn == fqn || logical_fqn == fqn))
unfolding ran mark_ran holds
ran-mark_ran s plan instance_fqn logical_fqn other fqn =
    ap₂ (λ a b. a || b) (holds-add s.instances plan other instance_fqn fqn)
      (holds-add s.logical plan other logical_fqn fqn)
    ∙ regroup (holds s.instances other fqn) (holds s.logical other fqn) (plan == other)
        (instance_fqn == fqn) (logical_fqn == fqn)
