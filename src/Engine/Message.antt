-- ===== src/Engine/Message.antt =====
-- The messages that the loop builds (src/agent/loop/engine.rs): the first ones, the pinned files
-- and the results of tools.
pub mod Pinned
use agent_kuibysheff.Common.{
  ℕ, ◌-◌, Bool, true, false, not, ◌&&◌, ◌||◌, Option, none, some, List, [], ◌∷◌, ◌++◌, ◌==◌, nat_eq,
  list_eq, Eq, if◌then◌else◌, is_empty, all, ltb, leb, length, get_elem?, set, take, drop, map,
  Text, text, trim, starts_with,
}
use agent_kuibysheff.History.{ChatRole, system, user, ChatMessage, history_prefix_len}
use agent_kuibysheff.Access.Paths.{
  Component, root_dir, cur_dir, parent_dir, normal, components, is_absolute,
}

abbrev pub message : ChatRole → Text → ChatMessage
message role content = record { role = role; content = content }

abbrev same_role : ChatRole → ChatRole → Bool
same_role system system = true
same_role user user = true
same_role ChatRole.assistant ChatRole.assistant = true
same_role _ _ = false

abbrev pub is_system : ChatMessage → Bool
is_system m = same_role m.role system

abbrev pub truncation_marker : Text
truncation_marker = text "\n...[truncated for model context]"

unfoldable pub truncate_chars : Text → ℕ → Text
truncate_chars t max_chars =
    if leb (length t) max_chars
    then t
    else take (max_chars - length truncation_marker) t ++ truncation_marker

abbrev pub model_tool_result_max_chars : ℕ
model_tool_result_max_chars = 32000

abbrev pub pinned_max_chars : ℕ
pinned_max_chars = 12000

abbrev pub pinned_header : Text
pinned_header = text "Pinned files (refreshed each turn; do not re-read a path listed here):"

-- `upsert_pinned_message`; `Vec::insert` panics, `none`, behind the end of the list.
unfoldable pub upsert_pinned_message : List ChatMessage → Text → Option (List ChatMessage)
upsert_pinned_message messages t = elim (get_elem? messages history_prefix_len) [
  | some m ↦
      if starts_with pinned_header m.content
      then some (set messages history_prefix_len (message user t))
      else some
          (take history_prefix_len messages ++ message user t ∷ drop history_prefix_len messages)
  | none ↦
      if ltb (length messages) history_prefix_len
      then none
      else some
          (take history_prefix_len messages ++ message user t ∷ drop history_prefix_len messages)
]

abbrev is_normal : Component → Bool
is_normal (normal s) = true
is_normal _ = false

unfoldable pub is_safe_relative : Text → Bool
is_safe_relative path =
    if is_empty path
    then false
    else if is_absolute path
    then false
    else all is_normal (components path)

abbrev ends_with_newline : Text → Bool
ends_with_newline [] = false
ends_with_newline (c ∷ []) = c == b'\n'
ends_with_newline (c ∷ d ∷ cs) = ends_with_newline (d ∷ cs)

-- The text of one file behind its heading; `read` is `read_to_string` below the home directory.
abbrev file_body : (Text → Option Text) → Text → Text → Text
file_body read relative out = elim (read relative) [
  | some t ↦ out ++ t
  | none ↦ out ++ text "(absent)\n"
]

unfoldable pub pin_files : (Text → Option Text) → Text → List Text → Text
unfolding is_safe_relative
pin_files read out [] = out
pin_files read out (relative ∷ files) =
    let headed = out ++ b'\n' ∷ text "--- " ++ relative ++ text " ---\n" in
    let body = file_body read relative headed in
    let ended = (if ends_with_newline body then body else body ++ b'\n' ∷ []) in
    let skipped =
      pin_files read (headed ++ text "(skipped: path must be relative and stay inside home)\n")
        files in
    let more = pin_files read ended files in
    if not (is_safe_relative relative)
    then skipped
    else if leb pinned_max_chars (length ended)
    then ended
    else more

unfoldable pub load_pinned_message : (Text → Option Text) → List Text → Text
unfolding pin_files truncate_chars
load_pinned_message read files =
    truncate_chars (pin_files read (pinned_header ++ b'\n' ∷ []) files) pinned_max_chars

-- `/` for each backslash, then no `./` in front.
abbrev forward : ℕ → ℕ
forward c = if c == b'\\' then b'/' else c

abbrev strip_dot_slash : Text → Text
strip_dot_slash [] = []
strip_dot_slash (c ∷ []) = c ∷ []
strip_dot_slash (c ∷ d ∷ cs) =
    let rest = strip_dot_slash cs in if c == b'.' && d == b'/' then rest else c ∷ d ∷ cs

abbrev pop_slash : Text → Text
pop_slash [] = []
pop_slash (c ∷ []) = if c == b'/' then [] else c ∷ []
pop_slash (c ∷ d ∷ cs) = c ∷ pop_slash (d ∷ cs)

unfoldable pub normalize_home_path : Text → Text
normalize_home_path path =
    let normalized = strip_dot_slash (map forward (trim path)) in
    if leb (length normalized) 1 then normalized else pop_slash normalized

-- `home_read_path`; the last argument is the argument `path` of the call.
unfoldable pub home_read_path : Text → Text → Option Text → Option Text
unfolding normalize_home_path
home_read_path server tool path =
    if not (server == text "home") || (not (tool == text "read") && not (tool == text "list"))
    then none
    else elim path [ none ↦ none | some p ↦ some (normalize_home_path p) ]

unfoldable pub apply_current_system_prompt : List ChatMessage → Text → List ChatMessage
apply_current_system_prompt [] prompt = message system prompt ∷ []
apply_current_system_prompt (first ∷ messages) prompt =
    if is_system first
    then record first { content = prompt } ∷ messages
    else message system prompt ∷ first ∷ messages

-- `initial_messages`, with the text of `build_user_message`.
unfoldable pub initial_messages : Text → Text → Text → Option (List ChatMessage) → List ChatMessage
unfolding apply_current_system_prompt
initial_messages prompt system_prompt user_message none =
    message system system_prompt ∷ message user user_message ∷ []
initial_messages prompt system_prompt user_message (some []) =
    message system system_prompt ∷ message user user_message ∷ []
initial_messages prompt system_prompt user_message (some (m ∷ ms)) =
    let messages = apply_current_system_prompt (m ∷ ms) system_prompt in
    if is_empty (trim prompt) then messages else messages ++ message user user_message ∷ []

abbrev join_commas : List Text → Text
join_commas [] = []
join_commas (t ∷ []) = t
join_commas (t ∷ u ∷ ts) = t ++ text ", " ++ join_commas (u ∷ ts)

abbrev pub rules : Text
rules =
    text
      "\n\nRespond with one JSON object. No markdown fences.\n\nRequired response shape:\n{\"done\": bool, \"thought\": string, \"tool_calls\": [{\"server\":\"home\", \"tool\":\"write\", \"arguments\": {\"path\":\"out/file.md\", \"content\":\"short text\"}}], \"result\": string|null}\n\nFor BSL, XML, or any file with quotes or longer than a few hundred characters, omit content and set \"body\":\"raw\". The only text allowed after the JSON object is the file itself:\n<<<FILE\nfile bytes\nFILE>>>\nUse \"mode\":\"append\" to continue a file whose previous raw body was cut off. Do not put that file text inside the JSON string.\n\nRules:\n- Use done=false and tool_calls while files still need to be written.\n- Use server=\"home\" for filesystem tools.\n- One home.write per turn.\n- Set done=true only after required files were written.\n- Never describe tool calls in plain text."

unfoldable pub build_user_message : Text → Text → List Text → Text
build_user_message prompt input_files_context available_tools =
    text "Goal: "
    ++ prompt
    ++ text "\n\n"
    ++ (if is_empty input_files_context
        then text "Attached input files: none"
        else text "Attached input files (read-only context):\n" ++ input_files_context)
    ++ text "\n\nAvailable tools: "
    ++ join_commas available_tools
    ++ rules
