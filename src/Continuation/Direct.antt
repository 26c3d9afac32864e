-- ===== src/Continuation/Direct.antt =====
-- What a continuation that is permitted has.
use lite2api.Common.{not, not, ◌≡◌, ◌⊎◌, not, [], ◌∷◌}
use lite2api.Common.Text.{trim_space, to_lower}
use lite2api.Runtime.State.{AccountRuntime}
use lite2api.Continuation.{find_owners, Owner, Owners, find_owners}

-- The owner's account is a generic OpenAI one, and the owner has no credential of its own.
pub record IsDirect (o : Owner) (a : AccountRuntime) : Type 0 where
  pub type : a.config.type ≡ "openai"
  pub adapter :
      (to_lower (trim_space a.config.adapter_id) ≡ "")
      ⊎ (to_lower (trim_space a.config.adapter_id) ≡ "generic-openai")
  pub credential : o.credential ≡ ""

Single : Owners → Type 0
Single found = (o : Owner) × (a : AccountRuntime) × (found.owners ≡ (o, a) ∷ []) × IsDirect o a
