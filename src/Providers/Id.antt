-- ===== src/Providers/Id.antt =====
-- backend/src/providers/types.rs: the providers' identities, names and parsing.
use rkgw.Base.{
  string_eq, String, List, [], ◌∷◌, Bool, true, false, Option, none, some, ◌≡◌, ◌↔◌, refl, arith,
  Eq, ◌==◌, if◌then◌else◌,
}

pub data ProviderId : Type 0 where
  kiro anthropic open_ai_codex copilot huawei_maas : ProviderId

unfoldable pub as_str : ProviderId → String
as_str kiro = "kiro"
as_str anthropic = "anthropic"
as_str open_ai_codex = "openai_codex"
as_str copilot = "copilot"
as_str huawei_maas = "huawei_maas"

-- `FromStr`: `none` is the error "Unknown provider".
unfoldable pub from_str : String → Option ProviderId
from_str s =
    if s == "kiro"
    then some kiro
    else if s == "anthropic"
    then some anthropic
    else if s == "openai_codex"
    then some open_ai_codex
    else if s == "openai"
    then some open_ai_codex
    else if s == "copilot"
    then some copilot
    else if s == "huawei_maas"
    then some huawei_maas
    else if s == "huawei"
    then some huawei_maas
    else none

abbrev pub provider_beq : ProviderId → ProviderId → Bool
provider_beq kiro kiro = true
provider_beq anthropic anthropic = true
provider_beq open_ai_codex open_ai_codex = true
provider_beq copilot copilot = true
provider_beq huawei_maas huawei_maas = true
provider_beq _ _ = false

pub provider_beq_iff : (a b : ProviderId) → (provider_beq a b ≡ true) ↔ (a ≡ b)
provider_beq_iff a b = ground arith

instance abbrev pub provider_eq : Eq ProviderId
provider_eq = record { beq = provider_beq; beq_iff = provider_beq_iff }

-- A provider's stored name parses back to it.
pub from_str-as_str : (p : ProviderId) → from_str (as_str p) ≡ some p
unfolding from_str as_str
from_str-as_str kiro = refl
from_str-as_str _ = refl

unfoldable pub display_name : ProviderId → String
display_name kiro = "Kiro"
display_name anthropic = "Anthropic"
display_name open_ai_codex = "OpenAI Codex"
display_name copilot = "Copilot"
display_name huawei_maas = "Huawei MaaS"

unfoldable pub all_visible : List ProviderId
all_visible = kiro ∷ anthropic ∷ open_ai_codex ∷ copilot ∷ huawei_maas ∷ []
