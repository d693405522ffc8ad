-- ===== src/Config/Bootstrap.antt =====
-- intelliroute/router/main.py: _bootstrap_registry, against the rule by which the launcher leaves
-- the mocks' processes out.
use mathlib.Core.Path.{◌≡◌, refl, ap, ◌∙◌}
use intelli_route_team.Common.{
  Bool, true, false, ◌||◌, List, [], ◌∷◌, ◌++◌, Text, ◌==◌, text_eq, if◌then◌else◌, arith,
}
use intelli_route_team.Common.Float.{Float}
use intelli_route_team.Common.Strings.{text, strip, lower, is_text}
use intelli_route_team.Router.Provider.{ProviderInfo}
use intelli_route_team.Router.Registry.{ProviderRegistry, bulk_register}
use intelli_route_team.Config.{
  Environ, get_env, Settings, ProviderMode, effective_provider_mode, skips_for,
  should_skip_mock_uvicorn_subprocesses, result_for, mock_infos, external_infos, groq_info,
  gemini_info, BootstrapResult, build_bootstrap_result,
}

abbrev known_registration : Text → Text
known_registration raw =
    if raw == text "legacy"
    then raw
    else if raw == text "hybrid"
    then raw
    else if raw == text "dynamic"
    then raw
    else text "hybrid"

-- `_mock_registration_mode`
unfoldable pub mock_registration_mode : Environ → Text
mock_registration_mode env =
    known_registration
      (lower (strip (get_env (text "INTELLIROUTE_MOCK_REGISTRATION") (text "hybrid") env)))

module _ {F : Type 0} ⦃fl : Float F⦄ where
  abbrev register_all : List (ProviderInfo F) → F → ProviderRegistry F → ProviderRegistry F
  register_all [] now r = r
  register_all (p ∷ ps) now r = bulk_register (p ∷ ps) now r

  -- `_bootstrap_registry`
  unfoldable pub bootstrap_registry :
      Environ → Settings → F → ProviderRegistry F → ProviderRegistry F
  bootstrap_registry env s now r =
      let result =
        build_bootstrap_result s (external_infos s) (mock_infos s) (mock_registration_mode env) in
      if get_env (text "INTELLIROUTE_SKIP_BOOTSTRAP") [] env == text "1"
      then r
      else if result.external_only_no_keys
      then r
      else register_all result.providers now r

  abbrev externals_for : ProviderMode → List (ProviderInfo F) → List (ProviderInfo F)
  externals_for ProviderMode.mock_only ps = []
  externals_for ProviderMode.external_only ps = ps
  externals_for ProviderMode.hybrid ps = ps
  externals_for ProviderMode.auto ps = ps

  -- The providers that are called over the internet, unless only the mocks are wanted.
  abbrev pub wanted_externals : Settings → List (ProviderInfo F)
  wanted_externals s = externals_for (effective_provider_mode s) (external_infos s)

  -- The mocks, if their processes are started and the mode of registration is not `dynamic`.
  abbrev pub wanted_mocks : Environ → Settings → List (ProviderInfo F)
  wanted_mocks env s =
      if should_skip_mock_uvicorn_subprocesses s || mock_registration_mode env == text "dynamic"
      then []
      else mock_infos s

  register_all-bulk :
      (ps : List (ProviderInfo F)) (now : F) (r : ProviderRegistry F)
      → register_all ps now r ≡ bulk_register ps now r
  unfolding bulk_register
  register_all-bulk [] now r = refl
  register_all-bulk (p ∷ ps) now r = refl

  abbrev registered : BootstrapResult F → List (ProviderInfo F)
  registered b = if b.external_only_no_keys then [] else b.providers

  registered_lem :
      (m : ProviderMode) (groq gemini dynamic : Bool) (p q : ProviderInfo F)
      (mocks : List (ProviderInfo F))
      → (let ps = (if groq then p ∷ [] else []) ++ (if gemini then q ∷ [] else []) in
          registered (result_for m ps mocks dynamic)
          ≡ externals_for m ps ++ (if skips_for m (groq || gemini) || dynamic then [] else mocks))
  registered_lem ProviderMode.mock_only g e d p q mocks = ground arith
  registered_lem ProviderMode.external_only g e d p q mocks = ground arith
  registered_lem ProviderMode.hybrid g e d p q mocks = ground arith
  registered_lem ProviderMode.auto g e d p q mocks = ground arith

  external_only_no_keys_lem :
      (no_keys : Bool) (ps : List (ProviderInfo F)) (now : F) (r : ProviderRegistry F)
      → (if no_keys then r else register_all ps now r)
        ≡ bulk_register (if no_keys then [] else ps) now r
  unfolding bulk_register
  external_only_no_keys_lem true ps now r = refl
  external_only_no_keys_lem false ps now r = register_all-bulk ps now r

  -- At start the registry gets, in this order, the external providers with a key unless only mocks
  -- are wanted, and the mocks exactly if the launcher starts their processes and the mode of
  -- registration is not `dynamic` (in `hybrid` they register themselves as well); if the bootstrap is to be skipped, it gets nothing.
  pub bootstrap_registry-wanted :
      (env : Environ) (s : Settings) (now : F) (r : ProviderRegistry F)
      → bootstrap_registry env s now r ≡ (
          if get_env (text "INTELLIROUTE_SKIP_BOOTSTRAP") [] env == text "1"
          then r
          else bulk_register (wanted_externals s ++ wanted_mocks env s) now r)
  unfolding bootstrap_registry build_bootstrap_result external_infos
      should_skip_mock_uvicorn_subprocesses
  bootstrap_registry-wanted env s now r =
      let b =
        build_bootstrap_result s (external_infos s) (mock_infos s) (mock_registration_mode env) in
      ap (λ x. if get_env (text "INTELLIROUTE_SKIP_BOOTSTRAP") [] env == text "1" then r else x)
        (external_only_no_keys_lem b.external_only_no_keys b.providers now r
          ∙ ap (λ ps. bulk_register ps now r)
              (registered_lem (effective_provider_mode s) (is_text s.groq_api_key)
                (is_text s.gemini_api_key) (mock_registration_mode env == text "dynamic")
                (groq_info s) (gemini_info s) (mock_infos s)))
