-- ===== src/Policy/Images.antt =====
-- verifier/tasktype/image_allowlist.go: the allowlist of container image prefixes. The image names
-- are collected from the decoded task parameters.
pub mod Named
pub mod Laws
use text.Mathlib.Text.{starts_with}
use zero_trust_service.Common.{
  String, Bool, true, false, Option, none, some, List, [], ◌∷◌, ◌++◌, ◌==◌, ◌||◌, not,
  if◌then◌else◌, lookup, join,
}
use zero_trust_service.Json.{
  Json, null, str, arr, obj, Elems, nil, cons, Fields, end, field, fields,
}
use zero_trust_service.Fault.{Error, message, Result, ok, err}
use zero_trust_service.Types.{Bytes, VerifyRequest, TaskPackage, TaskDetails}
use zero_trust_service.Verifier.{Context, Interface}

pub record ImageAllowlistConfig : Type 0 where
  pub allowed_prefixes : List String

-- `if s, ok := v.(string); ok && s != ""`, with the one name that the branch appends.
abbrev pub string_name : Option Json → List String
string_name (some (str s)) = if s == "" then [] else s ∷ []
string_name _ = []

-- `val["name"]`, read only inside of `imageDetails`.
abbrev pub own_name : Bool → Fields → List String
own_name true fs = string_name (lookup "name" (fields fs))
own_name false fs = []

-- `if stepInfo, ok := val["stepInfo"].(map[string]any); ok`, and its image.
abbrev pub step_image : Option Json → List String
step_image (some (obj gs)) = string_name (lookup "image" (fields gs))
step_image _ = []

-- `collectImageNames`: the names that a call appends. The entry `imageDetails` is looked up by
-- `collect_details`; the loop over the other entries is `collect_children`.
unfoldable mutual
  pub collect_image_names : Json → Bool → List String
  collect_image_names (obj fs) inside =
      collect_details fs
      ++ (own_name inside fs ++ (step_image (lookup "stepInfo" (fields fs)) ++ collect_children fs))
  collect_image_names (arr vs) inside = collect_items vs inside
  collect_image_names _ inside = []

  pub collect_details : Fields → List String
  collect_details end = []
  collect_details (field k v fs) =
      if k == "imageDetails" then collect_image_names v true else collect_details fs

  pub collect_children : Fields → List String
  collect_children end = []
  collect_children (field k v fs) =
      (if k == "imageDetails" || k == "stepInfo" then [] else collect_image_names v false)
      ++ collect_children fs

  pub collect_items : Elems → Bool → List String
  collect_items nil inside = []
  collect_items (cons v vs) inside = collect_image_names v inside ++ collect_items vs inside

-- `extractImageNames`; `decode` is `json.Unmarshal` into an `any`.
unfoldable pub extract_image_names : (Bytes → Result Json) → Bytes → List String
extract_image_names decode raw = elim (decode raw) [
  | err e ↦ []
  | ok v ↦ collect_image_names v false
]

-- `isAllowed`.
unfoldable pub is_allowed : List String → String → Bool
is_allowed [] image = false
is_allowed (prefix ∷ prefixes) image = starts_with image prefix || is_allowed prefixes image

-- The task parameters, empty where the package or its details are missing.
abbrev pub details_parameters : Option TaskDetails → Bytes
details_parameters none = []
details_parameters (some d) = d.parameters

abbrev pub package_parameters : Option TaskPackage → Bytes
package_parameters none = []
package_parameters (some p) = details_parameters p.task_details

module _ {W : Type 0} (decode : Bytes → Result Json) (quote : String → String)
    (show_list : List String → String) where
  -- The loop of `Handle`; `quote` and `show_list` are the verbs `%q` and `%v` of package fmt.
  unfoldable pub check_images : List String → List String → W → Option Error × W
  check_images prefixes [] w = (none, w)
  check_images prefixes (image ∷ images) w =
      if not (is_allowed prefixes image)
      then (
        some (
            message (
              join (
                "image_allowlist: image "
                ∷ quote image
                ∷ " does not match any allowed prefix "
                ∷ show_list prefixes
                ∷ []))),
        w,
      )
      else check_images prefixes images w

  check_parameters : List String → Bytes → W → Option Error × W
  check_parameters prefixes [] w = (none, w)
  check_parameters prefixes (b ∷ raw) w =
      check_images prefixes (extract_image_names decode (b ∷ raw)) w

  -- `imageAllowlistVerifier.Handle`.
  unfoldable pub handle : List String → Interface W
  unfolding check_parameters
  handle prefixes ctx req w = check_parameters prefixes (package_parameters req.task_package) w

  -- `NewImageAllowlist`.
  unfoldable pub new_image_allowlist : ImageAllowlistConfig → Result (Interface W)
  new_image_allowlist cfg = elim cfg.allowed_prefixes [
    | [] ↦ err (message "image_allowlist: allowed_prefixes list is empty")
    | p ∷ ps ↦ ok (handle (p ∷ ps))
  ]
