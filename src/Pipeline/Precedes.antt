-- ===== src/Pipeline/Precedes.antt =====
-- verifier/pipeline/evaluate.go: `precedesVia` against the chains of predecessors that it looks for.
use zero_trust_service.Common.{
  ◌≡◌, refl, ◌≢◌, sym, ap, subst, ◌↔◌, ◌⊎◌, inl, inr, ℕ, zero, suc, ◌<◌, Bool, true, false, Option,
  some, List, [], ◌∷◌, ◌++◌, All, All-append, Elem, Elem-append, arith, Bool-cases, if◌then◌else◌,
}
use zero_trust_service.Pipeline.Graph.{GraphNode, Pointer}
use zero_trust_service.Pipeline.Climb.{preds}
use zero_trust_service.Pipeline.Rank.{rank, IsNode, Below}
use zero_trust_service.Pipeline.Descent.{preds-Below}
use zero_trust_service.Pipeline.Instances.{same_node}
use zero_trust_service.Pipeline.Nodes.{same_node-eq, same_node_refl}
use zero_trust_service.Pipeline.Resolve.{or_joined}
use zero_trust_service.Pipeline.Live.{
  Found, unless_found, was_visited, walk_preds, walk_back, found_result, precedes_via,
}

-- A chain of predecessors, from a node back to `a`, through nodes that wait for all of theirs.
pub data Precedes (a : Pointer) : Pointer → Type 0 where
  last : (n : Pointer) → or_joined n ≡ false → Elem a (preds n) → Precedes a n
  more : (n p : Pointer) → or_joined n ≡ false → Elem p (preds n) → Precedes a p → Precedes a n

module _ (root : GraphNode) (a : Pointer) (in_graph : IsNode root a) where
  was_visited-Elem :
      (p : Pointer) (visited : List Pointer)
      → IsNode root p
      → All (IsNode root) visited
      → was_visited p visited ≡ true
      → Elem p visited
  unfolding was_visited
  was_visited-Elem p [] k ks h = cc
  was_visited-Elem p (q ∷ visited) k (k', ks) h = elim (Bool-cases (same_node q p)) [
    | inl e ↦ inl (same_node-eq root q p k' k e)
    | inr e ↦ inr (was_visited-Elem p visited k ks (rw e at h))
  ]

  -- The nodes below a rank that were visited are not preceded by `a`.
  abbrev Clear : ℕ → List Pointer → Type 0
  Clear b visited = (v : Pointer) → Elem v visited → rank v < b → ¬ Precedes a v

  -- Each visited node was so before, or is not preceded by `a`.
  abbrev Adds : List Pointer → List Pointer → Type 0
  Adds visited visited' = (v : Pointer) → Elem v visited' → Elem v visited ⊎ ¬ Precedes a v

  -- What a search gives: with `hit` where it finds `a`, with `miss` and clear visits where not.
  pub data Searched (hit miss : Type 0) (visited : List Pointer) : Option Found → Type 0 where
    found : (visited' : List Pointer) → hit → Searched hit miss visited (some (true, visited'))
    not_found :
        (visited' : List Pointer)
        → miss
        → All (IsNode root) visited'
        → Adds visited visited'
        → Searched hit miss visited (some (false, visited'))

  abbrev Searches : ℕ → (Pointer → List Pointer → Option Found) → Type 0
  Searches b walk =
      (p : Pointer) (visited : List Pointer)
      → Below root b p
      → All (IsNode root) visited
      → Clear (rank p) visited
      → Searched (Precedes a p) (¬ Precedes a p) visited (walk p visited)

  after-miss :
      (p : Pointer) (visited visited' : List Pointer)
      → ¬ Precedes a p
      → Adds (visited ++ p ∷ []) visited'
      → Adds visited visited'
  after-miss p visited visited' miss adds v i = elim (adds v i) [
    | inl old ↦ elim ((Elem-append v visited (p ∷ [])).0 old) [
      | inl older ↦ inl older
      | inr here ↦ elim here [
        | inl e ↦ inr (subst (λ n. ¬ Precedes a n) e miss)
        | inr no_more ↦ absurd no_more
      ]
    ]
    | inr new ↦ inr new
  ]

  Adds-trans : (u v w : List Pointer) → Adds u v → Adds v w → Adds u w
  Adds-trans u v w f g x i = elim (g x i) [ inl j ↦ f x j | inr k ↦ inr k ]

  Clear-Adds : (b : ℕ) (u v : List Pointer) → Clear b u → Adds u v → Clear b v
  Clear-Adds b u v clear adds x i below = elim (adds x i) [ inl j ↦ clear x j below | inr k ↦ k ]

  -- A hit among the predecessors, or none.
  abbrev Hit : List Pointer → Type 0
  Hit ps = (p : Pointer) × Elem p ps × ((p ≡ a) ⊎ Precedes a p)

  abbrev Miss : List Pointer → Type 0
  Miss ps = (p : Pointer) → Elem p ps → (p ≢ a) × (¬ Precedes a p)

  extend :
      (p : Pointer) (ps visited visited' : List Pointer) {r : Option Found}
      → p ≢ a
      → ¬ Precedes a p
      → Adds visited visited'
      → Searched (Hit ps) (Miss ps) visited' r
      → Searched (Hit (p ∷ ps)) (Miss (p ∷ ps)) visited r
  extend p ps visited visited' ne miss adds (found v (q, i, h)) = found v (q, inr i, h)
  extend p ps visited visited' ne miss adds (not_found v misses ks more_adds) =
      not_found v
        (λ q i. elim i [
          | inl e ↦ subst (λ n. (n ≢ a) × (¬ Precedes a n)) e (ne, miss)
          | inr j ↦ misses q j
        ])
        ks (Adds-trans visited visited' v adds more_adds)

  then_rest :
      (b : ℕ) (p : Pointer) (ps visited : List Pointer) (rest : List Pointer → Option Found)
      {r : Option Found}
      → p ≢ a
      → Clear b visited
      → ((v : List Pointer)
          → All (IsNode root) v
          → Clear b v
          → Searched (Hit ps) (Miss ps) v (rest v))
      → Searched (Precedes a p) (¬ Precedes a p) visited r
      → Searched (Hit (p ∷ ps)) (Miss (p ∷ ps)) visited (unless_found r rest)
  then_rest b p ps visited rest ne clear go (found v h) = found v (p, inl refl, inr h)
  then_rest b p ps visited rest ne clear go (not_found v miss ks adds) =
      extend p ps visited v ne miss adds (go v ks (Clear-Adds b visited v clear adds))

  visit_one :
      (b : ℕ) (walk : Pointer → List Pointer → Option Found) (p : Pointer) (visited : List Pointer)
      → Searches b walk
      → Below root b p
      → All (IsNode root) visited
      → Clear b visited
      → Searched
          (Precedes a p)
          (¬ Precedes a p)
          visited
          (if was_visited p visited then some (false, visited) else walk p (visited ++ p ∷ []))
  visit_one b walk p visited ok below ks clear = elim (Bool-cases (was_visited p visited)) [
    | inl old ↦ rw old (
        not_found visited (clear p (was_visited-Elem p visited below.1 ks old) below.0) ks
          (λ v i. inl i))
    | inr new ↦ rw new (
        after (
          ok p (visited ++ p ∷ []) below (All-append _ visited (p ∷ []) ks (below.1, tt))
            clear_before))
  ]
    where
      clear_before : Clear (rank p) (visited ++ p ∷ [])
      clear_before v i less = elim ((Elem-append v visited (p ∷ [])).0 i) [
        | inl old ↦ clear v old (omega (arith, below.0))
        | inr here ↦ elim here [
          | inl e ↦ absurd (omega (arith, ap rank e))
          | inr no_more ↦ absurd no_more
        ]
      ]

      after :
          {r : Option Found}
          → Searched (Precedes a p) (¬ Precedes a p) (visited ++ p ∷ []) r
          → Searched (Precedes a p) (¬ Precedes a p) visited r
      after (found v h) = found v h
      after (not_found v miss ks adds) = not_found v miss ks (after-miss p visited v miss adds)

  walk_preds-Searched :
      (b : ℕ) (walk : Pointer → List Pointer → Option Found) (ps : List Pointer)
      (visited : List Pointer)
      → Searches b walk
      → All (Below root b) ps
      → All (IsNode root) visited
      → Clear b visited
      → Searched (Hit ps) (Miss ps) visited (walk_preds walk a ps visited)
  unfolding walk_preds
  walk_preds-Searched b walk [] visited ok below ks clear =
      not_found visited (λ p i. absurd i) ks (λ v i. inl i)
  walk_preds-Searched b walk (p ∷ ps) visited ok (below, belows) ks clear =
      elim (Bool-cases (same_node p a)) [
        | inl same ↦
            rw same (found visited (p, inl refl, inl (same_node-eq root p a below.1 in_graph same)))
        | inr other ↦ rw other (
            then_rest b p ps visited (walk_preds walk a ps) (differs other) clear
              (λ v ks' clear'. walk_preds-Searched b walk ps v ok belows ks' clear')
              (visit_one b walk p visited ok below ks clear))
      ]
    where
      differs : same_node p a ≡ false → p ≢ a
      differs other e =
          let h : same_node p p ≡ false = subst (λ n. same_node p n ≡ false) (sym e) other in
          absurd (let t = same_node_refl p in cc)

  Precedes-Hit : (n : Pointer) → or_joined n ≡ false → Hit (preds n) → Precedes a n
  Precedes-Hit n waits (p, i, inl e) = last n waits (subst (λ q. Elem q (preds n)) e i)
  Precedes-Hit n waits (p, i, inr k) = more n p waits i k

  Precedes-Miss : {n : Pointer} → Miss (preds n) → ¬ Precedes a n
  Precedes-Miss miss (last n waits i) = (miss a i).0 refl
  Precedes-Miss miss (more n p waits i k) = (miss p i).1 k

  Precedes-waits : {n : Pointer} → Precedes a n → or_joined n ≡ false
  Precedes-waits (last n waits i) = waits
  Precedes-waits (more n p waits i k) = waits

  -- With fuel for its rank a node is searched to the end.
  walk_back-Searches : (fuel : ℕ) → Searches fuel (walk_back fuel a)
  unfolding walk_back
  walk_back-Searches zero n visited below ks clear = absurd (omega (arith, below.0))
  walk_back-Searches (suc fuel) n visited below ks clear = elim (Bool-cases (or_joined n)) [
    | inl either ↦
        rw either
          (not_found visited (λ k. let w = Precedes-waits k in absurd (cc)) ks (λ v i. inl i))
    | inr waits ↦ rw waits (
        whole waits (
          walk_preds-Searched (rank n) (walk_back fuel a) (preds n) visited
            (λ p v b. walk_back-Searches fuel p v (omega (arith, b.0, below.0), b.1))
            (preds-Below root n below.1) ks clear))
  ]
    where
      whole :
          {r : Option Found}
          → or_joined n ≡ false
          → Searched (Hit (preds n)) (Miss (preds n)) visited r
          → Searched (Precedes a n) (¬ Precedes a n) visited r
      whole waits (found v h) = found v (Precedes-Hit n waits h)
      whole waits (not_found v miss ks' adds) = not_found v (Precedes-Miss miss) ks' adds

  -- The search ends, and says yes exactly where there is a chain back to `a`.
  pub precedes_via_iff :
      (b : Pointer)
      → IsNode root b
      → (r : Bool) × (precedes_via a b ≡ some r) × ((r ≡ true) ↔ Precedes a b)
  unfolding precedes_via found_result
  precedes_via_iff b in_graph_b =
      result (walk_back-Searches (suc (rank b)) b [] (omega arith, in_graph_b) tt (λ v i. absurd i))
    where
      result :
          {r : Option Found}
          → Searched (Precedes a b) (¬ Precedes a b) [] r
          → (x : Bool) × (found_result r ≡ some x) × ((x ≡ true) ↔ Precedes a b)
      result (found v h) = (true, refl, (λ e. h, λ k. refl))
      result (not_found v miss ks adds) = (false, refl, (λ e. cc, λ k. absurd (miss k)))
