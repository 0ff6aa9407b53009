-- ===== src/Adapters/Tests.antt =====
-- A registry of one adapter, and an artifact that it reviews.
use angel_cloud.Prelude.{◌≡◌, refl, String, List, [], ◌∷◌, Memᴰ, All, ok, arith}
use angel_cloud.Prelude.Dict.{lookup}
use angel_cloud.Text.{code_unit_le}
use angel_cloud.Json.{canonical_json}
use angel_cloud.Gate.State.{
  HostedTool, HostedVersionArtifact, ProviderBindingRequirement, google_oauth, zero_hash,
}
use angel_cloud.Adapters.Scopes.{DerivedOperation, DerivedAdapter, select_required_scopes}
use angel_cloud.Adapters.Cover.{IsCovered, select_required_scopes-IsCovered}
use angel_cloud.Adapters.Enough.{HasRankedScope, select_required_scopes-found}
use angel_cloud.Adapters.Validate.{validate_artifact_adapters}
use angel_cloud.Adapters.Reviewed.{IsReviewed, validate_artifact_adapters-IsReviewed}
use angel_cloud.Fixtures.{toy, send_request}

abbrev send_operation : DerivedOperation
send_operation = record { request = send_request; scopes = "write" ∷ "admin" ∷ [] }

abbrev read_operation : DerivedOperation
read_operation = record { request = send_request; scopes = "read" ∷ "write" ∷ [] }

-- `read` is the narrowest scope.
abbrev chat : DerivedAdapter
chat = record {
  provider = "chat";
  adapter = "chat@1";
  credential = google_oauth;
  origin = "https://chat.test";
  source = "https://chat.test/spec";
  source_digest = zero_hash;
  scope_ranking = "read" ∷ "write" ∷ "admin" ∷ [];
  operations = ("chat.send", send_operation) ∷ ("chat.read", read_operation) ∷ [];
}

-- One scope serves both tools, and the narrower one is not asked for as well.
scopes_run : select_required_scopes chat ("chat.send" ∷ "chat.read" ∷ []) ≡ ok ("write" ∷ [])
unfolding select_required_scopes lookup
scopes_run = refl

select_required_scopes-IsCovered_example :
    All (IsCovered chat ("write" ∷ [])) ("chat.send" ∷ "chat.read" ∷ [])
select_required_scopes-IsCovered_example =
    select_required_scopes-IsCovered chat ("chat.send" ∷ "chat.read" ∷ []) ("write" ∷ []) scopes_run

send_ranked : All (HasRankedScope chat) ("chat.send" ∷ [])
unfolding lookup
send_ranked = ((send_operation, refl, ("write", Memᴰ.head refl, Memᴰ.tail (Memᴰ.head refl))), tt)

select_required_scopes-found_example :
    (out : List String) × (select_required_scopes chat ("chat.send" ∷ []) ≡ ok out)
select_required_scopes-found_example =
    select_required_scopes-found chat "chat.send" [] (omega arith) send_ranked

abbrev chat_tool : HostedTool
chat_tool = record {
  name = "chat.send";
  provider = "chat";
  operation = "chat.send";
  arg_guards = [];
  request = send_request;
}

abbrev chat_requirement : ProviderBindingRequirement
chat_requirement = record {
  id = "chat";
  source = "demo";
  provider = "chat";
  credential = google_oauth;
  required_scopes = "write" ∷ [];
  tools = "chat.send" ∷ [];
}

abbrev chat_artifact : HostedVersionArtifact
chat_artifact = record {
  format = "angel.version.v2";
  name = "demo";
  charter = "";
  children = [];
  providers =
      (
        "chat",
        record { adapter = "chat@1"; origin = "https://chat.test"; source_digest = zero_hash },
      )
      ∷ [];
  binding_requirements = chat_requirement ∷ [];
  tools = chat_tool ∷ [];
  canonical_source = "";
  digest = "";
}

chat_valid : validate_artifact_adapters toy (("chat", chat) ∷ []) chat_artifact ≡ ok tt
unfolding validate_artifact_adapters lookup canonical_json code_unit_le
chat_valid = refl

validate_artifact_adapters-IsReviewed_example : IsReviewed toy (("chat", chat) ∷ []) chat_artifact
validate_artifact_adapters-IsReviewed_example =
    validate_artifact_adapters-IsReviewed toy (("chat", chat) ∷ []) chat_artifact chat_valid
