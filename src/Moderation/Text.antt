-- ===== src/Moderation/Text.antt =====
-- What texts may say, and how the fields of a report are normalised: the helpers of
-- src/services/moderation_service.rs over texts.
use Prim.Native.Char.{Char, code}
use Prim.Native.String.{◌++◌, count}
use Prim.Native.String as S
use mathlib.Core.Option
use text.Mathlib.Text.{starts_with}
use sync_server.Prelude.{
  ℕ, zero, suc, String, Bool, true, false, not, ◌&&◌, ◌||◌, Option, none, some, List, [], ◌∷◌, leb,
  find?, any, filter, if◌then◌else◌, str_eq,
}
use sync_server.Prelude.Text.{trim, clean}
use sync_server.Errors.{AppError, Result, ok, err}

abbrev pub blocked_terms : List String
blocked_terms =
    "child porn" ∷ "cp" ∷ "cunt" ∷ "faggot" ∷ "fuck" ∷ "fucker" ∷ "fucking" ∷ "kill yourself"
    ∷ "kike" ∷ "nigger" ∷ "nigga" ∷ "rape" ∷ "rapist" ∷ "retard" ∷ "shit" ∷ []

-- `char::is_ascii_alphanumeric`
abbrev pub is_ascii_alphanumeric : Char → Bool
is_ascii_alphanumeric ch =
    let c = code ch in leb 48 c && leb c 57 || leb 65 c && leb c 90 || leb 97 c && leb c 122

-- `chars().take(n).collect()`
unfoldable pub take_chars : ℕ → String → String
take_chars zero s = ""
take_chars (suc n) S.[] = ""
take_chars (suc n) (S.◌∷◌ c s) = S.◌∷◌ c (take_chars n s)

-- `haystack.contains(needle)`
unfoldable pub contains_text : String → String → Bool
contains_text S.[] needle = starts_with "" needle
contains_text (S.◌∷◌ c s) needle = starts_with (S.◌∷◌ c s) needle || contains_text s needle

-- A character goes to the first token, or ends it.
unfoldable pub extend_token : Bool → Char → List String → List String
extend_token true c [] = S.◌∷◌ c "" ∷ []
extend_token true c (t ∷ ts) = S.◌∷◌ c t ∷ ts
extend_token false c ts = "" ∷ ts

-- `split(|ch| !ch.is_ascii_alphanumeric())`
unfoldable pub split_tokens : String → List String
split_tokens S.[] = "" ∷ []
split_tokens (S.◌∷◌ c s) = extend_token (is_ascii_alphanumeric c) c (split_tokens s)

unfoldable pub tokens : String → List String
tokens text = filter (λ t. not (str_eq t "")) (split_tokens text)

-- A term with a space is looked for in the text, another among its tokens.
unfoldable pub has_term : String → String → Bool
has_term lowercase term =
    if contains_text term " "
    then contains_text lowercase term
    else any (λ t. str_eq t term) (tokens lowercase)

unfoldable pub detect_blocked_term : String → Option String
detect_blocked_term value =
    let lowercase = clean value in
    if str_eq lowercase "" then none else find? (has_term lowercase) blocked_terms

unfoldable pub ensure_text_is_allowed : String → String → Result (Unit {0})
ensure_text_is_allowed field_name value = elim (detect_blocked_term value) [
  | none ↦ ok tt
  | some term ↦
      err
        (AppError.bad_request (field_name ++ " contains objectionable content ('" ++ term ++ "')"))
]

unfoldable pub normalize_optional_text : Option String → Option String
normalize_optional_text none = none
normalize_optional_text (some value) =
    let trimmed = trim value in if str_eq trimmed "" then none else some trimmed

unfoldable pub normalize_reason_code : Option String → String → String
normalize_reason_code raw fallback = elim (normalize_optional_text raw) [
  | none ↦ fallback
  | some code ↦ code
]

-- A text of more than `limit` characters is cut, and three dots say so.
unfoldable pub cut : ℕ → String → String
cut limit text = if leb (count text) limit then text else take_chars limit text ++ "..."

unfoldable pub normalize_report_excerpt : Option String → Option String
normalize_report_excerpt raw = Option.map (cut 2000) (normalize_optional_text raw)

abbrev pub report_source_user : String
report_source_user = "user_report"

abbrev pub report_source_block : String
report_source_block = "block_action"

abbrev pub report_kind_user_profile : String
report_kind_user_profile = "user_profile"

abbrev pub report_kind_direct_message : String
report_kind_direct_message = "direct_message"

abbrev pub report_kind_room_message : String
report_kind_room_message = "room_message"

abbrev pub report_status_open : String
report_status_open = "open"

abbrev pub report_status_resolved : String
report_status_resolved = "resolved"

abbrev pub report_status_dismissed : String
report_status_dismissed = "dismissed"

abbrev pub resolution_dismiss : String
resolution_dismiss = "dismiss"

abbrev pub resolution_remove_content : String
resolution_remove_content = "remove_content"

abbrev pub resolution_remove_and_limit_new_dms : String
resolution_remove_and_limit_new_dms = "remove_content_and_limit_new_direct_messages"

abbrev pub resolution_suspend_user : String
resolution_suspend_user = "suspend_user"

abbrev pub resolution_remove_and_suspend : String
resolution_remove_and_suspend = "remove_content_and_suspend_user"

-- `match raw.trim()` over texts that stand for themselves.
unfoldable pub one_of : List String → String → String → Result String
one_of names message raw = elim (find? (λ name. str_eq (trim raw) name) names) [
  | none ↦ err (AppError.bad_request message)
  | some name ↦ ok name
]

unfoldable pub normalize_report_source : String → Result String
normalize_report_source raw =
    one_of (report_source_user ∷ report_source_block ∷ []) "Invalid report source" raw

abbrev pub content_kinds : List String
content_kinds =
    report_kind_user_profile ∷ report_kind_direct_message ∷ report_kind_room_message ∷ []

unfoldable pub normalize_content_kind : String → Result String
normalize_content_kind raw = one_of content_kinds "Invalid report content kind" raw

abbrev pub resolution_actions : List String
resolution_actions =
    resolution_dismiss ∷ resolution_remove_content ∷ resolution_remove_and_limit_new_dms
    ∷ resolution_suspend_user ∷ resolution_remove_and_suspend ∷ []

unfoldable pub normalize_resolution_action : String → Result String
normalize_resolution_action raw =
    one_of resolution_actions
      "action must be one of dismiss, remove_content, remove_content_and_limit_new_direct_messages, suspend_user, remove_content_and_suspend_user"
      raw
