-- ===== src/Ownership/Ensure/Safety.antt =====
-- What ensureOwnedNode (pkg/maclet/ownership.go) may write, and what it returns.
use maclet.Prelude.{
  ◌≡◌, refl, sym, ◌∙◌, subst, ◌⊎◌, inl, inr, Bool, true, false, Option, none, some, List, [], ◌∷◌,
  String, ◌==◌, string_instance, if◌then◌else◌, Result, ok, err, arith, Bool-cases,
}
use maclet.Prelude.Exec.{continue}
use maclet.Ownership.Node.{get, lookup, put, Node, instance_annotation, verify_node_ownership}
use maclet.Ownership.Node.Laws.{string_map_equal-put, verify_node_ownership-ok}
use maclet.Ownership.Ensure.{
  Request, get_node, create_node, patch_node, Reply, body, status, unreachable, NodeError, no_node,
  as_conflict, merged_annotations, ask, after_refresh, after_create, after_get, decoded, patched,
  patch_of, needs_patch, verify_uid, check, update, claim_node, ensure_owned_node,
}

module _ (Body : Type 0) (decode : Body → Node → Option Node)
    (api : List Request → Request → Reply Body) (arch name instance_id expected_uid : String)
    (adopt : Bool) where
  abbrev read_body : Reply Body → Option Node
  read_body (body b) = decode b no_node
  read_body (status code) = none
  read_body unreachable = none

  -- The Node that the latest answer before any patch showed.
  abbrev pub seen : List Request → Option Node
  seen [] = none
  seen (get_node n ∷ h) = read_body (api h (get_node n))
  seen (create_node n ∷ h) = read_body (api h (create_node n))
  seen (patch_node n p ∷ h) = seen h

  -- Whether it was created by that request.
  abbrev pub fresh : List Request → Bool
  fresh [] = false
  fresh (get_node n ∷ h) = false
  fresh (create_node n ∷ h) = true
  fresh (patch_node n p ∷ h) = fresh h

  -- Each patch is of the named Node, which passed the ownership checks as it was last seen, and
  -- carries the resource version seen.
  abbrev pub IsCareful : List Request → Type 0
  IsCareful [] = Unit
  IsCareful (get_node n ∷ h) = IsCareful h
  IsCareful (create_node n ∷ h) = IsCareful h
  IsCareful (patch_node n p ∷ h) =
      ((n ≡ name)
        × (node : Node) × (seen h ≡ some node)
        × (p.resource_version ≡ node.resource_version)
        × (verify_node_ownership arch node name instance_id (if fresh h then "" else expected_uid)
              adopt
            ≡ ok tt))
      × IsCareful h

  -- What the requests before the checks end in, and what the checks and the patch do from there
  abbrev found : List Request → Result NodeError (Body × Bool) × List Request
  found h =
      after_get Body decode api arch name instance_id expected_uid adopt (api h (get_node name))
        (get_node name ∷ h)

  abbrev claimed : Body → Bool → List Request → Result NodeError Node × List Request
  claimed b created h =
      claim_node Body decode api arch name instance_id expected_uid adopt (b, created) h

  after_get_lem :
      (h : List Request) (b : Body) (created : Bool)
      → (found h).0 ≡ ok (b, created)
      → (seen (found h).1 ≡ decode b no_node) × (fresh (found h).1 ≡ created)
  unfolding after_get after_create after_refresh ask
  after_get_lem h b created e = ground arith

  after_get-IsCareful : (h : List Request) → IsCareful h → IsCareful (found h).1
  unfolding after_get after_create after_refresh ask
  after_get-IsCareful h p = ground arith

  claim_node-calls :
      (b : Body) (created : Bool) (h : List Request)
      → ((claimed b created h).1 ≡ h)
        ⊎ ((node : Node) × (decode b no_node ≡ some node)
            × (verify_node_ownership arch node name instance_id
                  (if created then "" else expected_uid)
                  adopt
                ≡ ok tt)
            × ((claimed b created h).1
                ≡ patch_node name
                    (patch_of Body decode api arch name instance_id expected_uid adopt node)
                  ∷ h))
  unfolding claim_node update check ask decoded patched as_conflict verify_uid
  claim_node-calls b created h = ground arith

  patch_of_version :
      (node : Node)
      → (patch_of Body decode api arch name instance_id expected_uid adopt node).resource_version
        ≡ node.resource_version
  unfolding patch_of
  patch_of_version node = refl

  claim_node-IsCareful :
      (b : Body) (created : Bool) (h : List Request)
      → seen h ≡ decode b no_node
      → fresh h ≡ created
      → IsCareful h
      → IsCareful (claimed b created h).1
  claim_node-IsCareful b created h s f p = elim (claim_node-calls b created h) [
    | inl e ↦ subst IsCareful (sym e) p
    | inr (node, d, ok_of, e) ↦ subst IsCareful (sym e) (
      (
        refl,
        node,
        s ∙ d,
        patch_of_version node,
        subst
            (λ c.
              verify_node_ownership arch node name instance_id (if c then "" else expected_uid)
                adopt
              ≡ ok tt)
            (sym f) ok_of,
      ),
      p,
    )
  ]

  claimed-IsCareful :
      (r : Result NodeError (Body × Bool)) (h : List Request)
      → ((b : Body) (created : Bool)
          → r ≡ ok (b, created)
          → (seen h ≡ decode b no_node) × (fresh h ≡ created))
      → IsCareful h
      → IsCareful
          (continue r (claim_node Body decode api arch name instance_id expected_uid adopt) h).1
  claimed-IsCareful (err e) h k p = p
  claimed-IsCareful (ok (b, created)) h k p =
      claim_node-IsCareful b created h (k b created refl).0 (k b created refl).1 p

  -- Whatever the API server answers, each patch that the call sends is of the Node with the name given,
  -- which passed the ownership checks as the latest answer showed it (without the persisted UID only
  -- if this call created it), and carries the resource version of that answer.
  pub ensure_owned_node-IsCareful :
      (h : List Request)
      → IsCareful h
      → IsCareful (ensure_owned_node Body decode api arch name instance_id expected_uid adopt h).1
  unfolding ensure_owned_node ask
  ensure_owned_node-IsCareful h p = elim (Bool-cases (instance_id == "")) [
    | inl e ↦ rw e p
    | inr e ↦
        rw e (claimed-IsCareful (found h).0 (found h).1 (after_get_lem h) (after_get-IsCareful h p))
  ]

  returned_lem :
      (b : Body) (created : Bool) (h : List Request) (node : Node)
      → (claimed b created h).0 ≡ ok node
      → (verify_node_ownership arch node name instance_id
            (if created then "" else expected_uid)
            false
          ≡ ok tt)
        ⊎ ((verify_node_ownership arch node name instance_id
                (if created then "" else expected_uid)
                adopt
              ≡ ok tt)
            × (needs_patch Body decode api arch name instance_id expected_uid adopt node ≡ false))
  unfolding claim_node update check ask decoded patched as_conflict verify_uid
  returned_lem b created h node e = ground arith

  merged_annotations-unmarked :
      (node : Node)
      → lookup node.annotations instance_annotation ≡ none
      → merged_annotations instance_id node ≡ put node.annotations instance_annotation instance_id
  unfolding merged_annotations get
  merged_annotations-unmarked node e = rw e refl

  needs_patch-unmarked :
      (node : Node)
      → lookup node.annotations instance_annotation ≡ none
      → needs_patch Body decode api arch name instance_id expected_uid adopt node ≡ true
  unfolding needs_patch patch_of
  needs_patch-unmarked node e = ground (
    arith,
    merged_annotations-unmarked node e,
    string_map_equal-put node.annotations instance_annotation instance_id e,
  )

  -- What the caller may rely on of a Node that it is given
  abbrev pub IsOurs : Bool → Node → Type 0
  IsOurs created node =
      (node.name ≡ name)
      × (lookup node.annotations instance_annotation ≡ some instance_id)
      × ((created ≡ true) ⊎ ((expected_uid ≡ "") ⊎ (node.uid ≡ expected_uid)))

  claimed-IsOurs :
      (b : Body) (created : Bool) (h : List Request) (node : Node)
      → (claimed b created h).0 ≡ ok node
      → IsOurs created node
  claimed-IsOurs b created h node e = elim (returned_lem b created h node e) [
    | inl v ↦ ground (
      arith,
      verify_node_ownership-ok arch node name instance_id (if created then "" else expected_uid)
          false v,
    )
    | inr (v, n) ↦ ground (
      arith,
      n,
      needs_patch-unmarked node,
      verify_node_ownership-ok arch node name instance_id (if created then "" else expected_uid)
          adopt v,
    )
  ]

  claimed-fresh :
      (b : Body) (created : Bool) (h : List Request) → fresh (claimed b created h).1 ≡ fresh h
  unfolding claim_node update check ask decoded patched as_conflict verify_uid
  claimed-fresh b created h = ground arith

  continued-IsOurs :
      (r : Result NodeError (Body × Bool)) (h : List Request) (node : Node)
      → ((b : Body) (created : Bool)
          → r ≡ ok (b, created)
          → (seen h ≡ decode b no_node) × (fresh h ≡ created))
      → (continue r (claim_node Body decode api arch name instance_id expected_uid adopt) h).0
        ≡ ok node
      → IsOurs
          (fresh
            (continue r (claim_node Body decode api arch name instance_id expected_uid adopt) h).1)
          node
  continued-IsOurs (err x) h node k e = absurd (ground arith)
  continued-IsOurs (ok (b, created)) h node k e =
      subst (λ c. IsOurs c node) (sym (claimed-fresh b created h ∙ (k b created refl).1))
        (claimed-IsOurs b created h node e)

  -- A Node that the call returns has the name given and the marker of this instance; it has the
  -- persisted UID, if there is one, unless this call created it.
  pub ensure_owned_node-IsOurs :
      (h : List Request) (node : Node)
      → (ensure_owned_node Body decode api arch name instance_id expected_uid adopt h).0 ≡ ok node
      → IsOurs
          (fresh (ensure_owned_node Body decode api arch name instance_id expected_uid adopt h).1)
          node
  unfolding ensure_owned_node ask
  ensure_owned_node-IsOurs h node e = elim (Bool-cases (instance_id == "")) [
    | inl i ↦ absurd (ground (arith, i, e))
    | inr i ↦
        rw i
          (continued-IsOurs (found h).0 (found h).1 node (after_get_lem h) (ground (arith, i, e)))
  ]
