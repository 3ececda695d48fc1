-- ===== src/Collect/Messages.antt =====
-- `publicMessage` of agent/internal/runtime/runtime.go: what may be shown of an error's text.
use ai_control_hud.Prelude.{
  String, List, [], ◌∷◌, any, ltb, str_eq, codes, size, trim_text, has_prefix, cut, if◌then◌else◌,
}

-- `allowed`
abbrev pub zcode_texts : List String
zcode_texts =
    "ZCode live Goal database read failed" ∷ "ZCode task index read failed"
    ∷ "Unsupported ZCode task index schema" ∷ "ZCode task sources are unavailable" ∷ []

-- `allowedPrefixes`
abbrev pub command_code_prefixes : List String
command_code_prefixes =
    "ZCode provider config could not be read" ∷ "CommandCode provider not found in ZCode"
    ∷ "CommandCode provider API key missing in ZCode"
    ∷ "CommandCode provider endpoint is not verified" ∷ "CommandCode billing request failed"
    ∷ "CommandCode billing response too large" ∷ "CommandCode authentication failed"
    ∷ "CommandCode billing access denied" ∷ "CommandCode billing API unavailable"
    ∷ "Unsupported CommandCode credits response" ∷ "Unsupported CommandCode subscription response"
    ∷ []

unfoldable pub truncate_message : String → String
truncate_message message = if ltb 240 (size (codes message)) then cut 240 message else message

unfoldable pub zcode_message : String → String
zcode_message text =
    let message = trim_text text in
    if any (str_eq message) zcode_texts then message else "ZCode collection failed"

unfoldable pub command_code_message : String → String
unfolding truncate_message
command_code_message text =
    let message = trim_text text in
    if any (has_prefix message) command_code_prefixes
    then truncate_message message
    else "CommandCode collection failed"
