-- ===== src/DeviceStore.antt =====
-- The device store of api-server/src/threadforge_api/infrastructure/device_store.py, on a disk that works: a file
-- is an entry of the store, in the order in which `glob` finds the files, and a record is read back as it was
-- written. The digest of a token, the canonical form of an owner's id, `strip`, the pattern of the ids, the
-- length of a text, the order of a listing, the new ids and tokens, and the time are arguments.
pub mod Pairing
pub mod Naming
use thread_forge.Prelude.{
  ℕ, String, Bool, true, false, Option, none, some, is_some, List, [], ◌∷◌, ◌==◌, ◌&&◌, ◌||◌, not,
  if◌then◌else◌, map, length, ltb, as_set, eqb,
}
use thread_forge.Prelude.Dict.{Dict, get, put, remove}
use thread_forge.Json.{Fields, end, clip}

pub record WorkerWorkspace : Type 0 where
  pub workspace_id : String
  pub name : String
  pub is_git : Bool
  pub display_name_source : String
  pub display_name_updated_at : String

pub record Device : Type 0 where
  pub device_id : String
  pub owner_id : String
  pub name : String
  pub token_digest : String
  pub created_at : String
  pub last_seen_at : String
  pub display_name_source : String
  pub display_name_updated_at : String
  pub model : String
  pub model_provider : String
  pub model_configured : Bool
  pub version : String
  pub protocol_version : ℕ
  pub platform : String
  pub architecture : String
  pub capabilities : List String
  pub orchestration_backend : String
  pub model_capabilities : Fields
  pub update_status : Fields
  pub workspaces : List WorkerWorkspace
  pub machine_fingerprint : String

pub record Presence : Type 0 where
  pub model : String
  pub model_provider : String
  pub model_configured : Bool
  pub version : String
  pub protocol_version : ℕ
  pub platform : String
  pub architecture : String
  pub capabilities : List String
  pub workspaces : List WorkerWorkspace
  pub orchestration_backend : Option String
  pub model_capabilities : Option Fields
  pub update_status : Option Fields

pub data Refusal : Type 0 where
  device_not_found authorization_denied rename_conflict value_error : Refusal

pub data Answer (A : Type 0) : Type 0 where
  ok : A → Answer A
  refused : Refusal → Answer A

-- What the code uses of its libraries.
pub record System : Type 0 where
  pub token_digest : String → String
  pub canonical_owner_id : String → String
  pub strip : String → String
  pub is_ascii : String → Bool
  pub is_device_id : String → Bool
  pub size : String → ℕ

abbrev pub kept_or : {A : Type 0} → Option A → A → A
kept_or none a = a
kept_or (some b) a = b

abbrev or_value : String → String → String
or_value a b = if a == "" then b else a

module _ (y : System) where
  abbrev pub new_device : String → String → String → String → String → String → Device
  new_device id token now owner name fingerprint = record {
    device_id = id;
    owner_id = y.canonical_owner_id owner;
    name = y.strip name;
    token_digest = y.token_digest token;
    created_at = now;
    last_seen_at = "";
    display_name_source = "user";
    display_name_updated_at = now;
    model = "";
    model_provider = "";
    model_configured = false;
    version = "";
    protocol_version = 0;
    platform = "";
    architecture = "";
    capabilities = [];
    orchestration_backend = "";
    model_capabilities = end;
    update_status = end;
    workspaces = [];
    machine_fingerprint = y.strip fingerprint;
  }

  abbrev pub is_machine : String → String → Device → Bool
  is_machine owner fingerprint v = v.owner_id == owner && v.machine_fingerprint == fingerprint

  -- The loop of `find_by_fingerprint`.
  unfoldable pub find_machine : String → String → Dict Device → Option Device
  find_machine owner fingerprint [] = none
  find_machine owner fingerprint ((k, v) ∷ d) =
      if is_machine owner fingerprint v then some v else find_machine owner fingerprint d

  unfoldable pub find_by_fingerprint : String → String → Dict Device → Option Device
  find_by_fingerprint owner fingerprint d =
      if y.strip fingerprint == ""
      then none
      else find_machine (y.canonical_owner_id owner) (y.strip fingerprint) d

  abbrev pub rotated : String → String → String → Device → Device
  rotated token now name v = record v {
    token_digest = y.token_digest token;
    name = y.strip (or_value name v.name);
    last_seen_at = now;
  }

  -- The device that a pairing stores: the one of the machine, or a new one.
  abbrev pub paired : String → String → String → String → String → String → Option Device → Device
  paired id token now owner name fingerprint none = new_device id token now owner name fingerprint
  paired id token now owner name fingerprint (some v) = rotated token now name v

  unfoldable pub pair_or_reuse :
      String → String → String → String → String → String → Dict Device → Device × Dict Device
  pair_or_reuse id token now owner name fingerprint d =
      let v =
        paired id token now owner name fingerprint (find_by_fingerprint owner fingerprint d) in
      (v, put d v.device_id v)

  abbrev found : Option Device → Answer Device
  found none = refused device_not_found
  found (some v) = ok v

  unfoldable pub get_device : String → Dict Device → Answer Device
  get_device id d = if y.is_device_id id then found (get d id) else refused device_not_found

  abbrev pub owned : String → Answer Device → Answer Device
  owned owner (refused e) = refused e
  owned owner (ok v) = if v.owner_id == owner then ok v else refused device_not_found

  unfoldable pub get_for_owner : String → String → Dict Device → Answer Device
  unfolding get_device
  get_for_owner id owner d = owned (y.canonical_owner_id owner) (get_device id d)

  -- The loop of `authenticate`.
  unfoldable pub find_digest : String → Dict Device → Answer Device
  find_digest digest [] = refused authorization_denied
  find_digest digest ((k, v) ∷ d) = if v.token_digest == digest then ok v else find_digest digest d

  -- A token that is not ASCII makes `encode` raise an error, which is a ValueError.
  unfoldable pub authenticate : String → Dict Device → Answer Device
  authenticate token d =
      if token == "" || ltb 512 (y.size token)
      then refused authorization_denied
      else if not (y.is_ascii token)
      then refused value_error
      else find_digest (y.token_digest token) d

  -- {workspace.workspace_id: workspace for workspace in device.workspaces}[id]
  abbrev pub workspace_of : String → List WorkerWorkspace → Option WorkerWorkspace
  workspace_of id [] = none
  workspace_of id (w ∷ ws) = elim (workspace_of id ws) [
    | some v ↦ some v
    | none ↦ if w.workspace_id == id then some w else none
  ]

  -- One workspace that the worker reports, beside the stored one.
  abbrev pub merged : String → WorkerWorkspace → Option WorkerWorkspace → WorkerWorkspace
  merged now w none = record w { display_name_source = "auto"; display_name_updated_at = now }
  merged now w (some v) = record {
    workspace_id = w.workspace_id;
    name = if v.display_name_source == "user" then v.name else w.name;
    is_git = w.is_git;
    display_name_source = v.display_name_source;
    display_name_updated_at =
        if v.display_name_source == "user" || v.name == w.name
        then v.display_name_updated_at
        else now;
  }

  abbrev pub present : String → Presence → Device → Device
  present now p v = record v {
    last_seen_at = now;
    model = clip 200 p.model;
    model_provider = clip 40 p.model_provider;
    model_configured = p.model_configured;
    version = clip 32 p.version;
    protocol_version = p.protocol_version;
    platform = clip 32 p.platform;
    architecture = clip 32 p.architecture;
    capabilities = p.capabilities;
    orchestration_backend = kept_or_clipped p.orchestration_backend v.orchestration_backend;
    model_capabilities = kept_or p.model_capabilities v.model_capabilities;
    update_status = kept_or p.update_status v.update_status;
    workspaces = map (λ w. merged now w (workspace_of w.workspace_id v.workspaces)) p.workspaces;
  }
    where
      kept_or_clipped : Option String → String → String
      kept_or_clipped none a = a
      kept_or_clipped (some b) a = clip 64 b

  abbrev pub ids_of : List WorkerWorkspace → List String
  ids_of ws = map (λ (w : WorkerWorkspace). w.workspace_id) ws

  -- A change of the stored device, where it is found.
  abbrev pub store :
      String → (Device → Device) → Answer Device → Dict Device → Answer Device × Dict Device
  store id f (refused e) d = (refused e, d)
  store id f (ok v) d = (ok (f v), put d id (f v))

  unfoldable pub update_presence :
      String → String → Presence → Dict Device → Answer Device × Dict Device
  unfolding get_device
  update_presence now id p d =
      if ltb 100 (length p.workspaces)
        || not (eqb (length (as_set (ids_of p.workspaces))) (length p.workspaces))
      then (refused value_error, d)
      else store id (present now p) (get_device id d) d

  abbrev pub named : String → String → String → WorkerWorkspace → WorkerWorkspace
  named now id name w =
      if w.workspace_id == id
      then record w {
        name = clip 200 (y.strip name);
        display_name_source = "user";
        display_name_updated_at = now;
      }
      else w

  abbrev pub store_name :
      String → String → String → String → Answer Device → Dict Device → Answer Device × Dict Device
  store_name now id workspace name (refused e) d = (refused e, d)
  store_name now id workspace name (ok v) d =
      if is_some (workspace_of workspace v.workspaces)
      then store id (λ u. record u { workspaces = map (named now workspace name) u.workspaces })
          (ok v) d
      else (refused device_not_found, d)

  unfoldable pub set_workspace_display_name :
      String → String → String → String → String → Dict Device → Answer Device × Dict Device
  unfolding get_for_owner
  set_workspace_display_name now id owner workspace name d =
      store_name now id workspace name (get_for_owner id owner d) d

  unfoldable pub update_worker_status : String → Fields → Dict Device → Answer Device × Dict Device
  unfolding get_device
  update_worker_status id status d =
      store id (λ v. record v { update_status = status }) (get_device id d) d

  abbrev pub renamed : String → String → Device → Device
  renamed now name v = record v {
    name = name;
    display_name_source = "user";
    display_name_updated_at = now;
  }

  abbrev pub is_outdated : String → Answer Device → Bool
  is_outdated expected (refused e) = false
  is_outdated expected (ok v) = not (expected == "") && not (expected == v.display_name_updated_at)

  unfoldable pub rename :
      String → String → String → String → String → Dict Device → Answer Device × Dict Device
  unfolding get_for_owner
  rename now id owner name expected d =
      if y.strip name == "" || ltb 200 (y.size (y.strip name))
      then (refused value_error, d)
      else if is_outdated expected (get_for_owner id owner d)
      then (refused rename_conflict, d)
      else store id (renamed now (y.strip name)) (get_for_owner id owner d) d

  abbrev pub unlinked : String → Answer Device → Dict Device → Answer (Unit {0}) × Dict Device
  unlinked id (refused e) d = (refused e, d)
  unlinked id (ok v) d = (ok tt, remove d id)

  unfoldable pub revoke : String → String → Dict Device → Answer (Unit {0}) × Dict Device
  unfolding get_for_owner
  revoke id owner d = unlinked id (get_for_owner id owner d) d
