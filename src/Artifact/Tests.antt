-- ===== src/Artifact/Tests.antt =====
-- Composition of the demonstration artifact.
use angel_cloud.Prelude.{◌≡◌, ◌↔◌, refl, List, [], ◌∷◌, map, ok}
use angel_cloud.Prelude.Sort.{sort}
use angel_cloud.Decision.Rules.{Distinct}
use angel_cloud.Gate.State.{ProviderBindingRequirement, google_oauth}
use angel_cloud.Artifact.{
  all_tools, by_name, flatten_tools, rebased_id, rebase_composed_requirements,
}
use angel_cloud.Artifact.Compose.{rebase_composed_requirements_iff}
use angel_cloud.Artifact.Flatten.{folded_name, flatten_tools_iff}
use angel_cloud.Fixtures.{toy, demo_artifact, send_tool}

flatten_tools_iff_example : (flatten_tools toy (demo_artifact ∷ []) ≡ ok (send_tool ∷ [])) ↔ (
    Distinct (map (folded_name toy) (all_tools (demo_artifact ∷ [])))
    × (sort by_name (all_tools (demo_artifact ∷ [])) ≡ send_tool ∷ []))
flatten_tools_iff_example = flatten_tools_iff toy (demo_artifact ∷ []) (send_tool ∷ []) (refl, tt)

abbrev chat_need : ProviderBindingRequirement
chat_need = record {
  id = "chat";
  source = "notes";
  provider = "chat";
  credential = google_oauth;
  required_scopes = [];
  tools = "chat.send" ∷ [];
}

-- One source with two providers: each id names both.
ids_test :
    map
      (rebased_id (chat_need ∷ record chat_need { provider = "docs" } ∷ []))
      (chat_need ∷ record chat_need { provider = "docs" } ∷ [])
    ≡ "notes:chat" ∷ "notes:docs" ∷ []
ids_test = refl

rebase_composed_requirements_iff_example :
    ((out : List ProviderBindingRequirement) × (rebase_composed_requirements
          (chat_need ∷ chat_need ∷ [])
        ≡ ok out))
    ↔ Distinct (map (rebased_id (chat_need ∷ chat_need ∷ [])) (chat_need ∷ chat_need ∷ []))
rebase_composed_requirements_iff_example =
    rebase_composed_requirements_iff (chat_need ∷ chat_need ∷ [])
