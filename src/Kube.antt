-- ===== src/Kube.antt =====
-- The Kubernetes objects that gdnd-k8s uses, and the API server, which is not the repository's
-- code: a record of requests, with the documented effect of a merge patch as named laws.
pub mod Client
pub mod Operator
use gpu_dead_node_detector.Common.{
  some, String, Option, Bool, List, ℕ, Dict, Effect, [], false, ◌≡◌, get_or, ok, ◌≢◌, none, Result,
  is_ok, true, err,
}

pub record Taint : Type 0 where
  pub key : String
  pub value : Option String
  pub effect : String
  pub time_added : Option ℕ

pub record NodeSpec : Type 0 where
  pub unschedulable : Option Bool
  pub taints : Option (List Taint)

pub record Node : Type 0 where
  pub name : String
  pub spec : Option NodeSpec

pub record Pod : Type 0 where
  pub namespace : Option String
  pub name : Option String
  pub annotations : Option (Dict String)
  pub owner_kinds : Option (List String)

-- The two merge patches that are sent.
pub data Patch : Type 0 where
  unschedulable_patch : Bool → Patch
  taints_patch : List Taint → Patch

-- Requests to the API server; an error is shown by its text.
pub record Api (W : Type 0) : Type 0 where
  pub get_node : String → Effect W String Node
  pub patch_node : String → Patch → Effect W String Node
  pub list_nodes : ℕ → Effect W String (List Node)
  pub list_pods : String → Effect W String (List Pod)
  pub evict : String → String → Effect W String (Unit {0})

-- `node.spec.as_ref().and_then(|s| s.taints.clone()).unwrap_or_default()`
abbrev pub taints_in : Option NodeSpec → List Taint
taints_in none = []
taints_in (some s) = get_or s.taints []

abbrev pub taints_of : Node → List Taint
taints_of n = taints_in n.spec

abbrev pub is_unschedulable_in : Option NodeSpec → Bool
is_unschedulable_in none = false
is_unschedulable_in (some s) = get_or s.unschedulable false

-- A node that new pods are not scheduled on.
abbrev pub is_cordoned : Node → Bool
is_cordoned n = is_unschedulable_in n.spec

-- An answer, if there is one, is this node.
abbrev pub Answers : Node → Result String Node → Type 0
Answers n (ok x) = x ≡ n
Answers n (err e) = Unit

-- What the server keeps of a node: `apiserver` says what a patch does to it.
pub record Server {W : Type 0} (api : Api W) : Type 1 where
  -- the node of a name, as it is stored
  pub stored : String → W → Node
  pub get_reads : (n : String) (w : W) → Answers (stored n w) (api.get_node n w).0
  pub get_keeps : (n m : String) (w : W) → stored m (api.get_node n w).1 ≡ stored m w
  pub cordon_sets :
      (n : String) (b : Bool) (w : W)
      → is_ok (api.patch_node n (unschedulable_patch b) w).0 ≡ true
      → let after = stored n (api.patch_node n (unschedulable_patch b) w).1 in
        (is_cordoned after ≡ b) × (taints_of after ≡ taints_of (stored n w))
  pub taints_set :
      (n : String) (ts : List Taint) (w : W)
      → is_ok (api.patch_node n (taints_patch ts) w).0 ≡ true
      → let after = stored n (api.patch_node n (taints_patch ts) w).1 in
        (is_cordoned after ≡ is_cordoned (stored n w)) × (taints_of after ≡ ts)
  pub patch_frames :
      (n m : String) (p : Patch) (w : W) → n ≢ m → stored m (api.patch_node n p w).1 ≡ stored m w
