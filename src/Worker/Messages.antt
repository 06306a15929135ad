-- ===== src/Worker/Messages.antt =====
-- The message list of a run's request: buildMessages of run_worker.go and of streaming_worker.go,
-- whose bodies are the same. What `GetMessagesForRunContext` returns is an argument.
pub mod Said
use mathlib.Core.List.{append_assoc, append-nil, map-append}
use agentpg.Base.{
  ◌≡◌, refl, sym, ap, ◌∙◌, inl, inr, Bool, true, false, not, ◌&&◌, List, [], ◌∷◌, ◌++◌, map, Option,
  none, some, length, ltb, ◌==◌, if◌then◌else◌, Bool-cases, arith,
}
use agentpg.Driver.{
  Bytes, ContentType, ContentBlock, MessageRole, Message, text, tool_use, tool_result, image,
  document, thinking, server_tool_use, web_search_result,
}
use agentpg.Anthropic.{
  Sdk, ApiRole, ApiBlock, ApiMessage, new_text_block, new_tool_use_block, new_tool_result_block,
}

abbrev pub same_role : ApiRole → ApiRole → Bool
same_role ApiRole.user ApiRole.user = true
same_role ApiRole.assistant ApiRole.assistant = true
same_role ApiRole.user ApiRole.assistant = false
same_role ApiRole.assistant ApiRole.user = false

-- Only the role "assistant" gives an assistant message.
unfoldable pub request_role : MessageRole → ApiRole
request_role MessageRole.assistant = ApiRole.assistant
request_role MessageRole.user = ApiRole.user
request_role MessageRole.system = ApiRole.user
request_role (MessageRole.other _) = ApiRole.user

-- Whether a message may follow one of the given role.
abbrev pub may_follow : Option ApiRole → ApiRole → Bool
may_follow none role = true
may_follow (some previous) role = not (same_role previous role)

same_role-cases : (r s : ApiRole) → same_role r s ≡ true → r ≡ s
same_role-cases ApiRole.user ApiRole.user h = refl
same_role-cases ApiRole.assistant ApiRole.assistant h = refl
same_role-cases ApiRole.user ApiRole.assistant h = cc
same_role-cases ApiRole.assistant ApiRole.user h = cc

module _ {Json : Type 0} where
  -- Merges with the last message if it has the role, or appends a message.
  unfoldable pub push_content :
      ApiRole → List (ApiBlock Json) → List (ApiMessage Json) → List (ApiMessage Json)
  push_content role content [] = record { role = role; content = content } ∷ []
  push_content role content (m ∷ []) =
      if same_role m.role role
      then record m { content = m.content ++ content } ∷ []
      else m ∷ record { role = role; content = content } ∷ []
  push_content role content (m ∷ m' ∷ ms) = m ∷ push_content role content (m' ∷ ms)

  -- What the API asks for: the roles alternate, and no message is empty.
  unfoldable pub alternates : Option ApiRole → List (ApiMessage Json) → Bool
  alternates previous [] = true
  alternates previous (m ∷ ms) =
      may_follow previous m.role && (ltb 0 (length m.content) && alternates (some m.role) ms)

  -- The blocks in order, each with the role it is said in.
  unfoldable pub spoken : List (ApiMessage Json) → List (ApiRole × ApiBlock Json)
  spoken [] = []
  spoken (m ∷ ms) = map (λ block. (m.role, block)) m.content ++ spoken ms

  length-append_pos :
      (xs ys : List (ApiBlock Json)) → ltb 0 (length xs) ≡ true → ltb 0 (length (xs ++ ys)) ≡ true
  length-append_pos [] ys h = absurd cc
  length-append_pos (x ∷ xs) ys h = ground arith

  pub push_content-alternates :
      (role : ApiRole) (content : List (ApiBlock Json)) (previous : Option ApiRole)
      (m : ApiMessage Json) (ms : List (ApiMessage Json))
      → ltb 0 (length content) ≡ true
      → alternates previous (m ∷ ms) ≡ true
      → alternates previous (push_content role content (m ∷ ms)) ≡ true
  unfolding alternates push_content
  push_content-alternates role content previous m [] full h =
      ground (arith, length-append_pos m.content content)
  push_content-alternates role content previous m (m' ∷ ms) full h =
      ground (arith, push_content-alternates role content (some m.role) m' ms full)

  pub push_content-spoken :
      (role : ApiRole) (content : List (ApiBlock Json)) (ms : List (ApiMessage Json))
      → spoken (push_content role content ms) ≡ spoken ms ++ map (λ block. (role, block)) content
  unfolding spoken push_content
  push_content-spoken role content [] = append-nil _
  push_content-spoken role content (m ∷ []) = elim (Bool-cases (same_role m.role role)) [
    | inl same ↦
        rw (push_content, same)
          (append-nil _
            ∙ map-append (λ block. (m.role, block)) m.content content
            ∙ ap
                (λ r. map (λ block. (m.role, block)) m.content ++ map (λ block. (r, block)) content)
                (same_role-cases m.role role same)
            ∙ ap (λ l. l ++ map (λ block. (role, block)) content) (sym (append-nil _)))
    | inr differs ↦
        rw (push_content, differs)
          (ap (◌++◌ (map (λ block. (m.role, block)) m.content)) (append-nil _)
            ∙ ap (λ l. l ++ map (λ block. (role, block)) content) (sym (append-nil _)))
  ]
  push_content-spoken role content (m ∷ m' ∷ ms) =
      ap (◌++◌ (map (λ block. (m.role, block)) m.content))
        (push_content-spoken role content (m' ∷ ms))
      ∙ sym (
          append_assoc (map (λ block. (m.role, block)) m.content) (spoken (m' ∷ ms))
            (map (λ block. (role, block)) content))

module _ (sdk : Sdk) where
  open sdk use {Json, nil, unmarshal}

  -- `var input any` keeps nil where the document is empty or cannot be decoded.
  abbrev pub decoded : Option Json → Json
  decoded none = nil
  decoded (some json) = json

  abbrev pub tool_input : Bytes → Json
  tool_input [] = nil
  tool_input (b ∷ bs) = decoded (unmarshal (b ∷ bs))

  abbrev pub request_block : ContentType → ContentBlock → List (ApiBlock Json)
  request_block text block = new_text_block block.text ∷ []
  request_block tool_use block =
      new_tool_use_block block.tool_use_id (tool_input block.tool_input) block.tool_name ∷ []
  request_block tool_result block =
      new_tool_result_block block.tool_result_for_use_id block.tool_content block.is_error ∷ []
  request_block image block = []
  request_block document block = []
  request_block thinking block = []
  request_block server_tool_use block = []
  request_block web_search_result block = []
  request_block (ContentType.other _) block = []

  -- The inner loop; a block of any other type is dropped.
  unfoldable pub request_content : List ContentBlock → List (ApiBlock Json)
  request_content [] = []
  request_content (block ∷ blocks) = request_block block.type block ++ request_content blocks

  -- One turn of the outer loop.
  unfoldable pub add_message : Message → List (ApiMessage Json) → List (ApiMessage Json)
  add_message msg messages =
      if length (request_content msg.content) == 0
      then messages
      else push_content (request_role msg.role) (request_content msg.content) messages

  unfoldable pub build_from : List (ApiMessage Json) → List Message → List (ApiMessage Json)
  build_from messages [] = messages
  build_from messages (msg ∷ session_messages) =
      build_from (add_message msg messages) session_messages

  -- `none` is the error of the store.
  unfoldable pub build_messages : Option (List Message) → Option (List (ApiMessage Json))
  build_messages none = none
  build_messages (some session_messages) = some (build_from [] session_messages)

  -- `streamingWorker` has a copy of the function.
  abbrev pub build_streaming_messages : Option (List Message) → Option (List (ApiMessage Json))
  build_streaming_messages session_messages = build_messages session_messages

  -- The blocks that the code sends, each with its role; Messages.Said compares them with what is stored.
  unfoldable pub sent : List Message → List (ApiRole × ApiBlock Json)
  sent [] = []
  sent (msg ∷ ms) =
      map (λ block. (request_role msg.role, block)) (request_content msg.content) ++ sent ms

  add_message-alternates :
      (msg : Message) (ms : List (ApiMessage Json))
      → alternates none ms ≡ true
      → alternates none (add_message msg ms) ≡ true
  unfolding add_message push_content alternates
  add_message-alternates msg [] h = ground arith
  add_message-alternates msg (m ∷ ms) h = ground (
    arith,
    push_content-alternates (request_role msg.role) (request_content msg.content) none m ms,
  )

  pub build_from-alternates :
      (acc : List (ApiMessage Json)) (ms : List Message)
      → alternates none acc ≡ true
      → alternates none (build_from acc ms) ≡ true
  unfolding build_from
  build_from-alternates acc [] h = h
  build_from-alternates acc (msg ∷ ms) h =
      build_from-alternates (add_message msg acc) ms (add_message-alternates msg acc h)

  nil_of_length : (xs : List (ApiBlock Json)) → (length xs == 0) ≡ true → xs ≡ []
  nil_of_length [] h = refl
  nil_of_length (x ∷ xs) h = ground arith

  add_message-spoken :
      (msg : Message) (ms : List (ApiMessage Json))
      → spoken (add_message msg ms)
        ≡ spoken ms ++ map (λ block. (request_role msg.role, block)) (request_content msg.content)
  unfolding add_message
  add_message-spoken msg ms = elim (Bool-cases (length (request_content msg.content) == 0)) [
    | inl empty ↦
        rw (add_message, empty, nil_of_length (request_content msg.content) empty)
          (sym (append-nil (spoken ms)))
    | inr full ↦
        rw (add_message, full)
          (push_content-spoken (request_role msg.role) (request_content msg.content) ms)
  ]

  pub build_from-spoken :
      (acc : List (ApiMessage Json)) (ms : List Message)
      → spoken (build_from acc ms) ≡ spoken acc ++ sent ms
  unfolding build_from sent
  build_from-spoken acc [] = sym (append-nil (spoken acc))
  build_from-spoken acc (msg ∷ ms) =
      build_from-spoken (add_message msg acc) ms
      ∙ ap (λ l. l ++ sent ms) (add_message-spoken msg acc)
      ∙ append_assoc (spoken acc) _ (sent ms)
