-- ===== src/Provider/Identity.antt =====
-- internal/edgecenter/edgecenter.go: readInstanceID; instances.go: InstanceID of the provider object,
-- which keeps the ID, and CurrentNodeName.
pub mod Kept
use edgecenter_ccm.Prelude.{
  Str, Option, none, some, Bool, not, ◌&&◌, List, [], ◌∷◌, ◌⊎◌, inl, inr, codes, ◌==◌, str_eq,
  if◌then◌else◌, trim_space, Err, Exec, Outcome, ok, err, panic, pure, fail, deref, attempt, world,
  assign, ◌>>=◌, ◌>>◌,
}
use edgecenter_ccm.Cloud.Host.{Host, Metadata}
use edgecenter_ccm.Metadata.Search.{get}

abbrev pub instance_id_file : Str
instance_id_file = codes "/var/lib/cloud/data/instance-id"

-- The content of the file: an ID that cannot be used gives the empty ID and no error, since `err` is
-- the error of the reading.
unfoldable pub id_of_file : Err ⊎ Str → Outcome Str
id_of_file (inl e) = err e
id_of_file (inr text) =
    let id = trim_space text in
    if not (id == []) && not (id == codes "iid-datasource-none") then ok id else ok []

module _ {State : Type 0} (host : Host State) where
  read_id_file : Exec State Str
  read_id_file s = (do got ← attempt (host.read_file instance_id_file); λ t. (id_of_file got, t)) s

  abbrev or_file : Err ⊎ Option Metadata → Exec (Option Metadata × State) Str
  or_file (inl e) = world read_id_file
  or_file (inr md) = do m ← deref md; pure m.uuid

  unfoldable pub read_instance_id : Str → Exec (Option Metadata × State) Str
  unfolding read_id_file
  read_instance_id order = do md ← attempt (get host order); or_file md

  -- InstanceID of Edgecenter: the state begins with `localInstanceID`.
  unfoldable pub local_instance_id : Str → Exec (Str × (Option Metadata × State)) Str
  local_instance_id order ((c ∷ id), s) = (ok (c ∷ id), ((c ∷ id), s))
  local_instance_id order ([], s) =
      (do id ← world (read_instance_id order); assign id; pure id) ([], s)

  -- CurrentNodeName
  unfoldable pub current_node_name : Str → Exec (Option Metadata × State) Str
  current_node_name order = do md ← get host order; m ← deref md; pure m.name
