-- ===== src/Config/Tests.antt =====
-- The environment and the bootstrap at concrete files and settings.
use intelli_route_team.Common.{◌≡◌, refl, true, false, some, [], ◌∷◌, text_eq, map}
use intelli_route_team.Common.Dict.{lookup}
use intelli_route_team.Common.Strings.{text}
use intelli_route_team.Common.Unit.{milli}
use intelli_route_team.Router.Registry.{new_registry, bulk_register}
use intelli_route_team.Config.{
  Environ, Settings, env_bool, mock_infos, groq_info, external_infos, effective_provider_mode,
  normalize_provider_mode, should_skip_mock_uvicorn_subprocesses,
}
use intelli_route_team.Config.Dotenv.{parse_line, load_dotenv_if_present}
use intelli_route_team.Config.Dotenv.Quoted.{quoted, load_dotenv-quoted}
use intelli_route_team.Config.Bootstrap.{
  mock_registration_mode, bootstrap_registry, bootstrap_registry-wanted,
}

abbrev file : Environ
file =
    (text "GROQ_API_KEY", text "abc def")
    ∷ (text "HOST", text "a")
    ∷ (text "GROQ_API_KEY", text "z")
    ∷ []

abbrev env : Environ
env = (text "HOST", text "localhost") ∷ []

load_dotenv-quoted_example :
    lookup
      (text "GROQ_API_KEY")
      (load_dotenv_if_present
        (some (map quoted file))
        (record { loaded = false; environ = env })).environ
    ≡ some (text "abc def")
load_dotenv-quoted_example =
    load_dotenv-quoted (text "GROQ_API_KEY") file env
      (
        (refl, refl, refl, refl, refl),
        ((refl, refl, refl, refl, refl), ((refl, refl, refl, refl, refl), tt)),
      )
      refl

comment_line : parse_line (text "export A = b # c") ≡ some (text "A", text "b")
unfolding parse_line
comment_line = refl

-- The quotes go before the comment, so a mark inside them counts.
quoted_comment : parse_line (text "A=\"b #c\"") ≡ some (text "A", text "b")
unfolding parse_line
quoted_comment = refl

yes_is_true : env_bool (text "A") false ((text "A", text " Yes ") ∷ []) ≡ true
unfolding env_bool
yes_is_true = refl

abbrev settings : Settings
settings = record {
  host = text "localhost";
  mock_fast_port = 9001;
  mock_smart_port = 9002;
  mock_cheap_port = 9003;
  gemini_api_key = [];
  groq_api_key = text "abc";
  gemini_model = text "gemini-2.5-flash";
  groq_model = text "llama-3.3-70b-versatile";
  use_mock_providers = false;
  provider_mode = text "hybrid";
}

bootstrap_registry-wanted_example :
    bootstrap_registry ⦃fl = milli⦄ env settings 5 new_registry
    ≡ bulk_register
        (groq_info ⦃fl = milli⦄ settings ∷ mock_infos ⦃fl = milli⦄ settings)
        5
        new_registry
unfolding external_infos effective_provider_mode normalize_provider_mode mock_infos
    should_skip_mock_uvicorn_subprocesses mock_registration_mode
bootstrap_registry-wanted_example =
    bootstrap_registry-wanted ⦃fl = milli⦄ env settings 5 new_registry
