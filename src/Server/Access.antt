-- ===== src/Server/Access.antt =====
-- Who may call: extractAgentID and authorizeAdmin.
use Prim.Native.String.{String}
use ping_santo.Prelude.{if◌then◌else◌, Bool, false, Option, none, some, List, [], ◌∷◌}
use ping_santo.Prelude.Texts.{same, after_prefix}
use ping_santo.Server.{Formats, Request}

-- What `extractAgentID` returns.
pub data Caller : Type 0 where
  agent : String → Caller
  unknown : String → Caller

-- The case "mtls"
unfoldable pub certificate_id : Option (List String) → Caller
certificate_id none = unknown "client certificate required"
certificate_id (some []) = unknown "client certificate required"
certificate_id (some (name ∷ names)) = agent name

module _ (t : Formats) where
  -- `extractAgentID`
  unfoldable pub extract_agent_id : Request → String → Caller
  unfolding certificate_id
  extract_agent_id r mode =
      if same (t.to_lower mode) "mtls"
      then certificate_id r.tls
      else if same (t.trim_space r.agent_header) ""
      then unknown "missing X-Agent-ID header"
      else agent r.agent_header

  -- The last test of `authorizeAdmin`, on what follows the prefix
  unfoldable pub is_token : String → Option String → Bool
  is_token token none = false
  is_token token (some value) = same (t.trim_space value) token

  -- `authorizeAdmin`
  unfoldable pub authorize_admin : Request → String → Bool
  unfolding is_token after_prefix
  authorize_admin r token =
      if same (t.trim_space token) ""
      then false
      else is_token token (after_prefix "Bearer " r.authorization)
