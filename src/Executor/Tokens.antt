-- ===== src/Executor/Tokens.antt =====
-- `CountTokens` of executor.go.
use cpa_plugin_commandcode.Base.{ℕ, Bytes, codes, ◌/◌, ◌&&◌, List, [], length, ltb, if◌then◌else◌}

-- The estimate of `CountTokens`.
unfoldable pub count_tokens : Bytes → ℕ
count_tokens payload =
    let count = length payload / 4 in if ltb count 1 && ltb 0 (length payload) then 1 else count

-- The answer of `CountTokens`, a chat completion in JSON.
pub record TokenCount : Type 0 where
  pub id : Bytes
  pub object : Bytes
  pub created : ℕ
  pub model : Bytes
  pub choices : List Bytes
  pub prompt_tokens : ℕ
  pub completion_tokens : ℕ
  pub total_tokens : ℕ

-- `CountTokens`
unfoldable pub count_response : Bytes → Bytes → TokenCount
unfolding count_tokens
count_response model payload =
    let count = count_tokens payload in
    record {
      id = codes "commandcode-count";
      object = codes "chat.completion";
      created = 0;
      model = model;
      choices = [];
      prompt_tokens = count;
      completion_tokens = 0;
      total_tokens = count;
    }
