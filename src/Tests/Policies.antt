-- ===== src/Tests/Policies.antt =====
-- The built-in verifiers on sample requests.
use zero_trust_service.Common.{
  ℕ, ◌≡◌, ◌≢◌, refl, ◌↔◌, String, false, none, some, List, [], ◌∷◌, Elem, contains, add_all, lookup,
}
use zero_trust_service.Json.{Json}
use zero_trust_service.Fault.{Result, ok, message}
use zero_trust_service.Types.{Bytes, resolve_account_id, resolve_task_type}
use zero_trust_service.State.{State}
use zero_trust_service.Policy.Account
use zero_trust_service.Policy.Denylist
use zero_trust_service.Policy.Images.{
  handle, collect_image_names, is_allowed, check_images, extract_image_names,
}
use zero_trust_service.Policy.Images.Named.{Names}
use zero_trust_service.Policy.Images.Laws.{HasPrefix, handle_refuted}
use zero_trust_service.Tests.Samples.{plain_context, shell_request, start, quote, image_parameters}

abbrev accounts : Account.Config
accounts = record { allowed_accounts = "other" ∷ "acme" ∷ [] }

account_allows :
    (v : _) × (Account.new {W = State ℕ} quote accounts ≡ ok v)
    × (v plain_context shell_request start ≡ (none, start))
unfolding Account.new contains add_all resolve_account_id
account_allows = (_, refl, refl)

new-allows_iff_example :
    (((account_allows.0 plain_context shell_request start).0 ≡ none) ↔ (
      (resolve_account_id shell_request ≢ "")
      × Elem (resolve_account_id shell_request) ("other" ∷ "acme" ∷ [])))
    × ((account_allows.0 plain_context shell_request start).1 ≡ start)
new-allows_iff_example =
    Account.new-allows_iff quote accounts account_allows.0 plain_context shell_request start
      account_allows.1

abbrev denied : Denylist.Config
denied = record { denied_types = "SHELL" ∷ [] }

denylist_denies :
    (v : _) × (Denylist.new {W = State ℕ} quote denied ≡ ok v)
    × ((v plain_context shell_request start).0
        ≡ some (message "task_denylist: task type SHELL is denied by policy"))
unfolding Denylist.new contains add_all resolve_task_type
denylist_denies = (_, refl, refl)

new-denies_iff_example :
    (((denylist_denies.0 plain_context shell_request start).0 ≢ none) ↔ (
      (resolve_task_type shell_request ≢ "")
      × Elem (resolve_task_type shell_request) ("SHELL" ∷ [])))
    × ((denylist_denies.0 plain_context shell_request start).1 ≡ start)
new-denies_iff_example =
    Denylist.new-denies_iff quote denied denylist_denies.0 plain_context shell_request start
      denylist_denies.1

abbrev decode : Bytes → Result Json
decode raw = ok image_parameters

abbrev show_list : List String → String
show_list l = ""

prefixes_deny :
    (handle decode quote show_list ("repo/" ∷ []) plain_context shell_request start).0
    ≡ some (message "image_allowlist: image alpine does not match any allowed prefix ")
unfolding handle collect_image_names lookup is_allowed check_images extract_image_names
prefixes_deny = refl

handle_refuted_example :
    (n : String) × Names false image_parameters n × (¬ HasPrefix ("repo/" ∷ []) n)
handle_refuted_example =
    handle_refuted decode quote show_list ("repo/" ∷ []) plain_context shell_request start
      image_parameters refl
      (message "image_allowlist: image alpine does not match any allowed prefix ") prefixes_deny
