-- ===== src/Lifecycle/Files.antt =====
-- `resolve_deployment_file`, `resolve_params_file` and `resolve_bt_xml_file` of
-- nav2_wrapper/configuration.py. `locate` stands for `pathlib` and the file system: the path that a
-- configured text leads to, or the exception where no file is there.
use Prim.Native.String.{◌++◌}
use service_navigation_rbnx.Base.{String, Bool, false, Option, none, some, ◌=?◌, if◌then◌else◌}
use service_navigation_rbnx.Float.{Float}
use service_navigation_rbnx.Text.{strip, is_empty}
use service_navigation_rbnx.Value.{Value, Fields, get, truth, text_of}
use service_navigation_rbnx.Bridge.Runs.{Outcome, raised, returned}

-- A file of the package's legacy directory, or one of the deployment.
pub data File : Type 0 where
  legacy : String → File
  deployed : String → File

-- `LEGACY_PROFILE_FILES.get(profile)`
unfoldable pub legacy_profile : String → Option String
legacy_profile profile =
    if profile =? "default"
    then some "nav2_params.yml"
    else if profile =? "slam"
    then some "nav2_params_slam.yml"
    else if profile =? "sim"
    then some "nav2_params_sim.yml"
    else if profile =? "ranger_mini_v3"
    then some "nav2_params_ranger_mini_v3.yml"
    else none

module _ {R : Type 0} ⦃fl : Float R⦄ where
  -- Whether `cfg.get(key)` is set and true in a test.
  unfoldable pub is_set : Option (Value R) → Bool
  is_set none = false
  is_set (some v) = truth v

module _ {R : Type 0} ⦃fl : Float R⦄ (str : Value R → String)
    (locate : String → Outcome String) where
  -- `str(value or "").strip()`
  unfoldable pub stripped : Option (Value R) → String
  unfolding text_of
  stripped none = ""
  stripped (some v) = if truth v then strip (text_of str v) else ""

  unfoldable pub resolve_deployment_file : Option (Value R) → String → Outcome File
  unfolding stripped
  resolve_deployment_file value name =
      if is_empty (stripped value)
      then raised ("navigation config requires " ++ name)
      else elim (locate (stripped value)) [
        | raised e ↦ raised e
        | returned path ↦ returned (deployed path)
      ]

  unfoldable pub resolve_params_file : Fields R → Outcome File
  unfolding resolve_deployment_file is_set
  resolve_params_file cfg =
      let profile = stripped (get cfg "params_profile") in
      let deployment = resolve_deployment_file (get cfg "params_file") "params_file" in
      if is_empty profile then deployment else elim (legacy_profile profile) [
        | none ↦ raised "unknown legacy params_profile"
        | some name ↦ if is_set (get cfg "params_file") then deployment else returned (legacy name)
      ]

  unfoldable pub resolve_bt_xml_file : Fields R → Outcome (Option File)
  unfolding resolve_deployment_file is_set
  resolve_bt_xml_file cfg =
      let deployment = resolve_deployment_file (get cfg "bt_xml_file") "bt_xml_file" in
      if is_set (get cfg "bt_xml_file")
      then elim deployment [ raised e ↦ raised e | returned f ↦ returned (some f) ]
      else if stripped (get cfg "params_profile") =? "ranger_mini_v3"
      then returned (some (legacy "ranger_mini_v3_navigate.xml"))
      else returned none
