-- ===== src/Cats.antt =====
-- What a cat may be told: app/modules/cats/chat_policy.py. Unicode and the regular expressions are
-- parameters.
pub mod Memories
pub mod Chats
pub mod Reads
pub mod Privacy
use cat_game_backend.Base.{
  ℕ, String, Bool, true, false, not, ◌||◌, Option, none, some, str_eq, ltb, if◌then◌else◌,
}
use cat_game_backend.Core.Error.{Result, ok, key_error}
use cat_game_backend.Core.Outcome.{◌>>=◌, or_raise}

pub data CatChatCategory : Type 0 where
  companion coding general unknown prompt_injection safety professional : CatChatCategory

-- The normal form NFKC, the text without zero-width characters, the words joined by single spaces,
-- the first characters and their number, and whether an expression is found.
pub record TextTools : Type 0 where
  pub nfkc : String → String
  pub without_zero_width : String → String
  pub collapse : String → String
  pub first : ℕ → String → String
  pub strip : String → String
  pub length_of : String → ℕ
  pub is_injection : String → Bool
  pub is_unsafe : String → Bool
  pub is_professional : String → Bool
  pub is_coding : String → Bool
  pub is_companion : String → Bool
  pub leaks_instructions : String → Bool

pub record CatChatDecision : Type 0 where
  pub message : String
  pub category : CatChatCategory
  pub direct_reply : Option String
  pub remember : Bool

-- `_DIRECT_REPLIES`
abbrev pub direct_reply : CatChatCategory → Option String
direct_reply prompt_injection = some "냐… 냐앙. 나는 그냥 네 고양이로 있을래."
direct_reply safety = some "냐아… 그건 도와줄 수 없어. 지금 위험하다면 곁의 믿을 만한 사람이나 긴급 도움에 바로 알려 줘."
direct_reply professional = some "냐앙… 그건 고양이가 판단하면 안 되는 일이야. 의료·법률·재정 전문가에게 확인해 줘."
direct_reply _ = none

-- `category in {CODING, COMPANION}`
abbrev pub is_remembered : CatChatCategory → Bool
is_remembered coding = true
is_remembered companion = true
is_remembered _ = false

abbrev pub coding_summary : String
coding_summary = "사용자와 코딩 학습에 관해 대화했다."

abbrev pub companion_summary : String
companion_summary = "사용자와 일상과 기분에 관해 대화했다."

abbrev pub cat_chat_memory_summary : CatChatCategory → String
cat_chat_memory_summary coding = coding_summary
cat_chat_memory_summary _ = companion_summary

module _ (t : TextTools) where
  abbrev pub normalize_cat_chat_message : String → String
  normalize_cat_chat_message value = t.first 240 (t.collapse (t.without_zero_width (t.nfkc value)))

  -- The first expression that is found.
  unfoldable pub category_of : String → CatChatCategory
  category_of message =
      if t.is_injection message
      then prompt_injection
      else (if t.is_unsafe message
          then safety
          else (if t.is_professional message
              then professional
              else (if t.is_coding message
                  then coding
                  else (if t.is_companion message then companion else general))))

  unfoldable pub classify_cat_chat : String → Result CatChatDecision
  unfolding category_of
  classify_cat_chat value =
      let message = normalize_cat_chat_message value in
      let category = category_of message in
      if str_eq message ""
      then (do
        reply ← or_raise (direct_reply unknown) key_error
        ok (record {
          message = message;
          category = unknown;
          direct_reply = some reply;
          remember = false;
        }))
      else ok (record {
        message = message;
        category = category;
        direct_reply = direct_reply category;
        remember = is_remembered category;
      })

  unfoldable pub safe_cat_chat_output : Option String → Option String
  safe_cat_chat_output none = none
  safe_cat_chat_output (some value) =
      let normalized = t.collapse (t.strip value) in
      if str_eq normalized "" || ltb 220 (t.length_of normalized)
      then none
      else (if t.leaks_instructions normalized then none else some normalized)
