-- ===== src/Kube/Client/Effects.antt =====
-- What a successful request of the client leaves stored, on a server that keeps its laws.
use gpu_dead_node_detector.Kube.{Api, Server, taints_of, is_cordoned, Taint}
use gpu_dead_node_detector.Kube.Client.{cordon_node, uncordon_node, add_taint, remove_taint}
use gpu_dead_node_detector.Common.{
  String, some, List, ◌≡◌, none, Bool, if◌then◌else◌, keep, ok, any, ◌++◌, not, true, false, str_eq,
  ◌∷◌, [], arith,
}

-- The taint that `add_taint` adds.
abbrev pub new_taint : String → String → String → Taint
new_taint key value effect = record {
  key = key;
  value = some value;
  effect = effect;
  time_added = none;
}

abbrev pub has_taint : String → List Taint → Bool
has_taint key ts = any (λ t. str_eq t.key key) ts

abbrev pub with_taint : Taint → List Taint → List Taint
with_taint t ts = if has_taint t.key ts then ts else ts ++ t ∷ []

abbrev pub without_taint : String → List Taint → List Taint
without_taint key ts = keep (λ t. not (str_eq t.key key)) ts

module _ {W : Type 0} (api : Api W) (server : Server api) where
  open server use {stored, get_reads, get_keeps, cordon_sets, taints_set, patch_frames}

  pub stored-cordon_node :
      (n : String) (w : W)
      → (cordon_node api n w).0 ≡ ok tt
      → let after = stored n (cordon_node api n w).1 in
        (is_cordoned after ≡ true) × (taints_of after ≡ taints_of (stored n w))
  unfolding cordon_node
  stored-cordon_node n w done = ground (arith, cordon_sets n true w)

  pub stored-uncordon_node :
      (n : String) (w : W)
      → (uncordon_node api n w).0 ≡ ok tt
      → let after = stored n (uncordon_node api n w).1 in
        (is_cordoned after ≡ false) × (taints_of after ≡ taints_of (stored n w))
  unfolding uncordon_node
  stored-uncordon_node n w done = ground (arith, cordon_sets n false w)

  -- A successful `add_taint` leaves the taints as they were if one has the key already, and
  -- otherwise appends the new one; the node stays as schedulable as it was.
  pub stored-add_taint :
      (n key value effect : String) (w : W)
      → (add_taint api n key value effect w).0 ≡ ok tt
      → let after = stored n (add_taint api n key value effect w).1 in
        (is_cordoned after ≡ is_cordoned (stored n w))
        × (taints_of after ≡ with_taint (new_taint key value effect) (taints_of (stored n w)))
  unfolding add_taint
  stored-add_taint n key value effect w done =
      let t = new_taint key value effect in
      ground (
        arith,
        get_reads n w,
        get_keeps n n w,
        taints_set n (taints_of (stored n w) ++ t ∷ []) (api.get_node n w).1,
      )

  -- A successful `remove_taint` drops the taints with the key and keeps the others in their order;
  -- the node stays as schedulable as it was.
  pub stored-remove_taint :
      (n key : String) (w : W)
      → (remove_taint api n key w).0 ≡ ok tt
      → let after = stored n (remove_taint api n key w).1 in
        (is_cordoned after ≡ is_cordoned (stored n w))
        × (taints_of after ≡ without_taint key (taints_of (stored n w)))
  unfolding remove_taint
  stored-remove_taint n key w done = ground (
    arith,
    get_reads n w,
    get_keeps n n w,
    taints_set n (without_taint key (taints_of (stored n w))) (api.get_node n w).1,
  )
